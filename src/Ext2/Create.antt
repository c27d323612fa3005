-- ===== src/Ext2/Create.antt =====
-- main of hello-ext2/src/ext2-create.c.
pub mod Checked
pub mod Counts
pub mod Writes
pub mod Mount
use ece344_operating_system.Common.{ℕ, ◌*◌}
use ece344_operating_system.Ext2.System.{Environment, System, M, ◌>>=◌, ◌>>◌, ftruncate, plain_call}
use ece344_operating_system.Ext2.Layout.{block_size, num_blocks}
use ece344_operating_system.Ext2.Superblock.{write_superblock, write_block_group_descriptor_table}
use ece344_operating_system.Ext2.Bitmaps.{write_block_bitmap, write_inode_bitmap}
use ece344_operating_system.Ext2.Inodes.{write_inode_table}
use ece344_operating_system.Ext2.Directories.{
  write_root_dir_block, write_lost_and_found_dir_block, write_hello_world_file_block,
}

-- The file as `open` finds it: of any content if it was there already.
abbrev pub opened : (image : ℕ → ℕ) (size : ℕ) → System
opened image size = record { image = image; size = size; position = 0; calls = 0 }

unfoldable pub main : Environment → M (Unit {0})
unfolding ftruncate plain_call write_superblock write_block_group_descriptor_table
    write_block_bitmap write_inode_bitmap write_inode_table write_root_dir_block
    write_lost_and_found_dir_block write_hello_world_file_block
main env = do
  plain_call env
  ftruncate env 0
  ftruncate env (num_blocks * block_size)
  write_superblock env
  write_block_group_descriptor_table env
  write_block_bitmap env
  write_inode_bitmap env
  write_inode_table env
  write_root_dir_block env
  write_lost_and_found_dir_block env
  write_hello_world_file_block env
  plain_call env
