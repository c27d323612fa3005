-- ===== src/Ext2/Directories.antt =====
-- The directory blocks and the file block of hello-ext2/src/ext2-create.c.
pub mod RoundTrip
use ece344_operating_system.Common.{
  ℕ, zero, suc, ◌+◌, ◌-◌, ◌*◌, ◌/◌, ◌%◌, List, [], ◌∷◌, ◌++◌, length, ltb, ◌==◌, if◌then◌else◌,
}
use ece344_operating_system.Ext2.System.{
  Environment, OnError, errno_exit, exit_failure, M, ◌>>=◌, ◌>>◌, lseek, write, bytes_of,
}
use ece344_operating_system.Ext2.Layout.{
  block_size, block_offset, ext2_root_ino, lost_and_found_ino, hello_world_ino, hello_ino,
  root_dir_blockno, lost_and_found_dir_blockno, hello_world_file_blockno, ext2_name_len, u16, u32,
  zeros, overlay,
}

-- struct ext2_dir_entry, of 264 bytes with the padding behind `name`.
pub record DirEntry : Type 0 where
  pub inode : ℕ
  pub rec_len : ℕ
  pub name_len : ℕ
  pub name : List ℕ

abbrev pub dir_entry_size : ℕ
dir_entry_size = 264

abbrev pub dir_entry_bytes : DirEntry → List ℕ
dir_entry_bytes r = u32 r.inode ++ (u16 r.rec_len ++ (u16 r.name_len ++ (r.name ++ zeros 1)))

abbrev pub empty_entry : DirEntry
empty_entry = record { inode = 0; rec_len = 0; name_len = 0; name = zeros ext2_name_len }

-- The record length that `dir_entry_set` computes from the length of the name.
unfoldable pub set_rec_len : ℕ → ℕ
set_rec_len len = if len % 4 == 0 then 8 + len else 12 + len / 4 * 4

unfoldable pub dir_entry_set : DirEntry → (inode_num : ℕ) → (str : List ℕ) → DirEntry
unfolding set_rec_len
dir_entry_set entry inode_num str = record {
  inode = inode_num;
  rec_len = set_rec_len (length str);
  name_len = length str;
  name = overlay str entry.name;
}

abbrev pub dot : List ℕ
dot = b'.' ∷ []

abbrev pub dot_dot : List ℕ
dot_dot = b'.' ∷ b'.' ∷ []

abbrev pub lost_found : List ℕ
lost_found = b'l' ∷ b'o' ∷ b's' ∷ b't' ∷ b'+' ∷ b'f' ∷ b'o' ∷ b'u' ∷ b'n' ∷ b'd' ∷ []

abbrev pub hello_world : List ℕ
hello_world = b'h' ∷ b'e' ∷ b'l' ∷ b'l' ∷ b'o' ∷ b'-' ∷ b'w' ∷ b'o' ∷ b'r' ∷ b'l' ∷ b'd' ∷ []

abbrev pub hello : List ℕ
hello = b'h' ∷ b'e' ∷ b'l' ∷ b'l' ∷ b'o' ∷ []

-- An entry of the root directory: memset, and strncpy of the name.
abbrev pub root_entry : (inode rec_len : ℕ) (name : List ℕ) → DirEntry
root_entry inode rec_len name = record {
  inode = inode;
  rec_len = rec_len;
  name_len = length name;
  name = overlay name (zeros ext2_name_len);
}

abbrev pub named_rec_len : ℕ → ℕ
named_rec_len name_len = 12 + (name_len + 3) / 4 * 4

abbrev pub hello_rec_len : ℕ
hello_rec_len =
    block_size - (12 + 12 + named_rec_len (length lost_found) + named_rec_len (length hello_world))

abbrev pub file_content : List ℕ
file_content = b'H' ∷ b'e' ∷ b'l' ∷ b'l' ∷ b'o' ∷ b' ' ∷ b'w' ∷ b'o' ∷ b'r' ∷ b'l' ∷ b'd' ∷ 10 ∷ []

-- What stands in memory from the address of an entry on: behind its end, what the stack holds.
abbrev pub entry_memory : (stack : ℕ → ℕ) → DirEntry → ℕ → ℕ
entry_memory stack entry i =
    if ltb i dir_entry_size then bytes_of (dir_entry_bytes entry) i else stack (i - dir_entry_size)

module _ (env : Environment) where
  -- `rec_len` bytes from the address of the entry on.
  unfoldable pub write_entry : OnError → DirEntry → M (Unit {0})
  unfolding write
  write_entry on_error entry = write env on_error entry.rec_len (entry_memory env.stack entry)

  -- Six bytes of an empty entry that takes the rest of the block.
  unfoldable pub dir_entry_write_fill : (bytes_remaining : ℕ) → M (Unit {0})
  unfolding write
  dir_entry_write_fill bytes_remaining =
      write env errno_exit 6
        (bytes_of (dir_entry_bytes (record empty_entry { rec_len = bytes_remaining })))

  unfoldable pub write_root_dir_block : M (Unit {0})
  unfolding lseek write_entry
  write_root_dir_block = do
    lseek env exit_failure (block_offset root_dir_blockno)
    write_entry exit_failure (root_entry ext2_root_ino 12 dot)
    write_entry exit_failure (root_entry ext2_root_ino 12 dot_dot)
    write_entry exit_failure
        (root_entry lost_and_found_ino (named_rec_len (length lost_found)) lost_found)
    write_entry exit_failure
        (root_entry hello_world_ino (named_rec_len (length hello_world)) hello_world)
    write_entry exit_failure (root_entry hello_ino hello_rec_len hello)

  unfoldable pub write_lost_and_found_dir_block : M (Unit {0})
  unfolding lseek write_entry dir_entry_write_fill dir_entry_set
  write_lost_and_found_dir_block = do
    lseek env errno_exit (block_offset lost_and_found_dir_blockno)
    let current_entry = dir_entry_set empty_entry lost_and_found_ino dot
    write_entry errno_exit current_entry
    let parent_entry = dir_entry_set empty_entry ext2_root_ino dot_dot
    write_entry errno_exit parent_entry
    dir_entry_write_fill (block_size - current_entry.rec_len - parent_entry.rec_len)

  unfoldable pub write_hello_world_file_block : M (Unit {0})
  unfolding lseek write
  write_hello_world_file_block = do
    lseek env exit_failure (block_offset hello_world_file_blockno)
    write env exit_failure (length file_content) (bytes_of file_content)
