-- ===== src/Ext2/Layout.antt =====
-- The constants of hello-ext2/src/ext2-create.c, and numbers as bytes in memory.
use ece344_operating_system.Common.{ℕ, zero, suc, ◌-◌, ◌*◌, ◌/◌, ◌%◌, List, [], ◌∷◌, replicate}

abbrev pub block_size : ℕ
block_size = 1024

abbrev pub block_offset : ℕ → ℕ
block_offset i = i * block_size

abbrev pub num_blocks : ℕ
num_blocks = 1024

abbrev pub num_inodes : ℕ
num_inodes = 128

abbrev pub ext2_root_ino : ℕ
ext2_root_ino = 2

abbrev pub ext2_s_iflnk : ℕ
ext2_s_iflnk = 0xA000

abbrev pub ext2_s_ifreg : ℕ
ext2_s_ifreg = 0x8000

abbrev pub ext2_s_ifdir : ℕ
ext2_s_ifdir = 0x4000

abbrev pub ext2_s_irusr : ℕ
ext2_s_irusr = 0x0100

abbrev pub ext2_s_iwusr : ℕ
ext2_s_iwusr = 0x0080

abbrev pub ext2_s_ixusr : ℕ
ext2_s_ixusr = 0x0040

abbrev pub ext2_s_irgrp : ℕ
ext2_s_irgrp = 0x0020

abbrev pub ext2_s_ixgrp : ℕ
ext2_s_ixgrp = 0x0008

abbrev pub ext2_s_iroth : ℕ
ext2_s_iroth = 0x0004

abbrev pub ext2_s_ixoth : ℕ
ext2_s_ixoth = 0x0001

abbrev pub lost_and_found_ino : ℕ
lost_and_found_ino = 11

abbrev pub hello_world_ino : ℕ
hello_world_ino = 12

abbrev pub hello_ino : ℕ
hello_ino = 13

abbrev pub last_ino : ℕ
last_ino = hello_ino

abbrev pub superblock_blockno : ℕ
superblock_blockno = 1

abbrev pub block_bitmap_blockno : ℕ
block_bitmap_blockno = 3

abbrev pub inode_bitmap_blockno : ℕ
inode_bitmap_blockno = 4

abbrev pub inode_table_blockno : ℕ
inode_table_blockno = 5

abbrev pub root_dir_blockno : ℕ
root_dir_blockno = 21

abbrev pub lost_and_found_dir_blockno : ℕ
lost_and_found_dir_blockno = 22

abbrev pub hello_world_file_blockno : ℕ
hello_world_file_blockno = 23

abbrev pub last_block : ℕ
last_block = hello_world_file_blockno

abbrev pub num_free_blocks : ℕ
num_free_blocks = num_blocks - last_block - 1

abbrev pub num_free_inodes : ℕ
num_free_inodes = num_inodes - last_ino

abbrev pub ext2_super_magic : ℕ
ext2_super_magic = 0xEF53

abbrev pub ext2_valid_fs : ℕ
ext2_valid_fs = 1

abbrev pub ext2_errors_continue : ℕ
ext2_errors_continue = 1

abbrev pub ext2_name_len : ℕ
ext2_name_len = 255

abbrev pub ext2_n_blocks : ℕ
ext2_n_blocks = 15

-- The bytes of an unsigned integer, the lowest first.
abbrev pub little_endian : (width value : ℕ) → List ℕ
little_endian zero v = []
little_endian (suc n) v = (v % 256) ∷ little_endian n (v / 256)

abbrev pub u8 : ℕ → List ℕ
u8 = little_endian 1

abbrev pub u16 : ℕ → List ℕ
u16 = little_endian 2

abbrev pub u32 : ℕ → List ℕ
u32 = little_endian 4

abbrev pub zeros : ℕ → List ℕ
zeros n = replicate n 0

-- memcpy of bytes to the start of an array.
abbrev pub overlay : List ℕ → List ℕ → List ℕ
overlay [] ys = ys
overlay (x ∷ xs) [] = x ∷ xs
overlay (x ∷ xs) (y ∷ ys) = x ∷ overlay xs ys
