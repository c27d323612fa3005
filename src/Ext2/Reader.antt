-- ===== src/Ext2/Reader.antt =====
-- A reader of ext2 images, after the documentation that hello-ext2/src/ext2-create.c names: revision 0,
-- one block group, directories and files of one block.
use ece344_operating_system.Common.{
  ℕ, zero, suc, ◌+◌, ◌-◌, ◌*◌, ◌/◌, ◌%◌, ◌^◌, Bool, true, false, ◌&&◌, Option, none, some, List, [],
  ◌∷◌, leb, ◌==◌, if◌then◌else◌,
}

pub record DirectoryEntry : Type 0 where
  pub ino : ℕ
  pub name : List ℕ

module _ (image : ℕ → ℕ) where
  abbrev pub read_u16 : ℕ → ℕ
  read_u16 a = image a + 256 * image (a + 1)

  abbrev pub read_u32 : ℕ → ℕ
  read_u32 a = read_u16 a + 65536 * read_u16 (a + 2)

  abbrev pub read_bytes : (n a : ℕ) → List ℕ
  read_bytes zero a = []
  read_bytes (suc n) a = image a ∷ read_bytes n (a + 1)

  -- The superblock stands at 1024.
  abbrev pub fs_block_size : ℕ
  fs_block_size = 1024 * 2 ^ read_u32 1048

  -- The magic number, and a size that is the one of the file.
  abbrev pub has_file_system : (size : ℕ) → Bool
  has_file_system size = read_u16 1080 == 0xEF53 && read_u32 1028 * fs_block_size == size

  -- The block group descriptor stands in the block behind the superblock.
  abbrev pub descriptor_address : ℕ
  descriptor_address = (read_u32 1044 + 1) * fs_block_size

  abbrev pub inode_address : (ino : ℕ) → ℕ
  inode_address ino = read_u32 (descriptor_address + 8) * fs_block_size + (ino - 1) * 128

  abbrev pub file_type : (ino : ℕ) → ℕ
  file_type ino = read_u16 (inode_address ino) / 4096

  abbrev pub file_size : (ino : ℕ) → ℕ
  file_size ino = read_u32 (inode_address ino + 4)

  abbrev pub links_count : (ino : ℕ) → ℕ
  links_count ino = read_u16 (inode_address ino + 26)

  abbrev pub data_address : (ino : ℕ) → ℕ
  data_address ino = read_u32 (inode_address ino + 40) * fs_block_size

  abbrev pub file_bytes : (ino : ℕ) → List ℕ
  file_bytes ino = read_bytes (file_size ino) (data_address ino)

  -- A short target stands in the inode.
  abbrev pub link_target : (ino : ℕ) → List ℕ
  link_target ino = read_bytes (file_size ino) (inode_address ino + 40)

  -- What a record needs: room for its header and its name, alignment, and an end inside the block.
  abbrev pub good_record : (at end : ℕ) → Bool
  good_record at end =
      let rec_len = read_u16 (at + 4) in
      rec_len % 4 == 0
      && leb 8 rec_len
      && leb (8 + read_u16 (at + 6)) rec_len
      && leb (at + rec_len) end

  -- Without an inode, a record is a gap.
  abbrev pub add_record : (at : ℕ) → Option (List DirectoryEntry) → Option (List DirectoryEntry)
  add_record at none = none
  add_record at (some rest) =
      if read_u32 at == 0
      then some rest
      else some
          (record { ino = read_u32 at; name = read_bytes (read_u16 (at + 6)) (at + 8) } ∷ rest)

  -- The records from `at` on, none if one of them is bad. A record has 8 bytes at least.
  unfoldable pub records : (fuel at end : ℕ) → Option (List DirectoryEntry)
  records zero at end = none
  records (suc fuel) at end = elim (at == end) [
    | true ↦ some []
    | false ↦ elim (good_record at end) [
      | true ↦ add_record at (records fuel (at + read_u16 (at + 4)) end)
      | false ↦ none
    ]
  ]

  unfoldable pub directory : (ino : ℕ) → Option (List DirectoryEntry)
  unfolding records
  directory ino =
      records (file_size ino / 8 + 1) (data_address ino) (data_address ino + file_size ino)

  -- Bit `j` of the bitmap in a block.
  abbrev pub bitmap_bit : (blockno j : ℕ) → ℕ
  bitmap_bit blockno j = image (blockno * fs_block_size + j / 8) / 2 ^ (j % 8) % 2

  -- The first bit of the block bitmap is for the block of the superblock.
  abbrev pub block_bit : (blockno : ℕ) → ℕ
  block_bit blockno = bitmap_bit (read_u32 descriptor_address) (blockno - read_u32 1044)

  abbrev pub inode_bit : (ino : ℕ) → ℕ
  inode_bit ino = bitmap_bit (read_u32 (descriptor_address + 4)) (ino - 1)

-- How many of the `n` bits from `i` on are clear.
unfoldable pub count_clear : (n i : ℕ) → (ℕ → ℕ) → ℕ
count_clear zero i bit = 0
count_clear (suc n) i bit = (if bit i == 0 then 1 else 0) + count_clear n (i + 1) bit

-- How many entries name an inode.
abbrev pub count_entries : (ino : ℕ) → List DirectoryEntry → ℕ
count_entries ino [] = 0
count_entries ino (e ∷ es) = (if e.ino == ino then 1 else 0) + count_entries ino es
