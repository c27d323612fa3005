-- ===== src/Ext2/Create/Checked.antt =====
-- The error handling of hello-ext2/src/ext2-create.c.
use ece344_operating_system.Common.{List, [], ◌∷◌, ◌++◌, replicate, ℕ, ◌+◌, ◌-◌, ◌*◌, length, ◌≡◌}
use ece344_operating_system.Ext2.System.{
  Environment, System, OnError, errno_exit, exit_failure, bytes_of,
}
use ece344_operating_system.Ext2.System.Checked.{
  IsChecked, bind-IsChecked, then-IsChecked, lseek-IsChecked, write-IsChecked, ftruncate-IsChecked,
  plain_call-IsChecked, get_current_time-IsChecked, no_failure, ReturnsAfter, exited_or,
  first_failure,
}
use ece344_operating_system.Ext2.Layout.{
  block_size, block_offset, num_blocks, root_dir_blockno, lost_and_found_dir_blockno, ext2_root_ino,
  hello_world_file_blockno, lost_and_found_ino, hello_world_ino, hello_ino, block_bitmap_blockno,
  inode_bitmap_blockno,
}
use ece344_operating_system.Ext2.Superblock.{
  superblock, superblock_bytes, block_group_descriptor, block_group_descriptor_bytes,
  sizeof_superblock, write_superblock, write_block_group_descriptor_table,
}
use ece344_operating_system.Ext2.Bitmaps.{
  block_bitmap, inode_bitmap, write_block_bitmap, write_inode_bitmap,
}
use ece344_operating_system.Ext2.Inodes.{
  Inode, inode_bytes, inode_offset, lost_and_found_inode, root_inode, hello_world_inode,
  hello_inode, write_inode, write_inode_table,
}
use ece344_operating_system.Ext2.Directories.{
  DirEntry, dir_entry_bytes, empty_entry, entry_memory, dir_entry_set, dot, dot_dot, lost_found,
  hello_world, hello, root_entry, named_rec_len, hello_rec_len, file_content, write_entry,
  dir_entry_write_fill, write_root_dir_block, write_lost_and_found_dir_block,
  write_hello_world_file_block,
}
use ece344_operating_system.Ext2.Create.{main}

write_superblock-IsChecked : IsChecked (errno_exit ∷ errno_exit ∷ errno_exit ∷ []) write_superblock
unfolding write_superblock
write_superblock-IsChecked = then-IsChecked (lseek-IsChecked errno_exit (block_offset 1)) (
    bind-IsChecked get_current_time-IsChecked (λ t.
      write-IsChecked errno_exit sizeof_superblock
        (λ _. bytes_of (superblock_bytes (superblock t)))))

write_block_group_descriptor_table-IsChecked :
    IsChecked (errno_exit ∷ errno_exit ∷ []) write_block_group_descriptor_table
unfolding write_block_group_descriptor_table
write_block_group_descriptor_table-IsChecked =
    then-IsChecked (lseek-IsChecked errno_exit (block_offset 2)) (
      write-IsChecked errno_exit 32
        (λ _. bytes_of (block_group_descriptor_bytes block_group_descriptor)))

write_block_bitmap-IsChecked : IsChecked (errno_exit ∷ errno_exit ∷ []) write_block_bitmap
unfolding write_block_bitmap
write_block_bitmap-IsChecked =
    then-IsChecked (lseek-IsChecked errno_exit (block_offset block_bitmap_blockno))
      (write-IsChecked errno_exit block_size (λ _. block_bitmap))

write_inode_bitmap-IsChecked : IsChecked (errno_exit ∷ errno_exit ∷ []) write_inode_bitmap
unfolding write_inode_bitmap
write_inode_bitmap-IsChecked =
    then-IsChecked (lseek-IsChecked errno_exit (block_offset inode_bitmap_blockno))
      (write-IsChecked errno_exit block_size (λ _. inode_bitmap))

write_inode-IsChecked :
    (index : ℕ) (inode : Inode)
    → IsChecked (errno_exit ∷ errno_exit ∷ []) (λ env. write_inode env index inode)
unfolding write_inode
write_inode-IsChecked index inode =
    then-IsChecked (lseek-IsChecked errno_exit (inode_offset index))
      (write-IsChecked errno_exit 128 (λ _. bytes_of (inode_bytes inode)))

write_inode_table-IsChecked : IsChecked (replicate 9 errno_exit) write_inode_table
unfolding write_inode_table
write_inode_table-IsChecked = bind-IsChecked get_current_time-IsChecked (λ t.
    then-IsChecked (write_inode-IsChecked lost_and_found_ino (lost_and_found_inode t)) (
      then-IsChecked (write_inode-IsChecked ext2_root_ino (root_inode t)) (
        then-IsChecked (write_inode-IsChecked hello_world_ino (hello_world_inode t))
          (write_inode-IsChecked hello_ino (hello_inode t)))))

write_entry-IsChecked :
    (e : OnError) (entry : DirEntry) → IsChecked (e ∷ []) (λ env. write_entry env e entry)
unfolding write_entry
write_entry-IsChecked e entry = write-IsChecked e entry.rec_len (λ stack. entry_memory stack entry)

dir_entry_write_fill-IsChecked :
    (rest : ℕ) → IsChecked (errno_exit ∷ []) (λ env. dir_entry_write_fill env rest)
unfolding dir_entry_write_fill
dir_entry_write_fill-IsChecked rest =
    write-IsChecked errno_exit 6
      (λ _. bytes_of (dir_entry_bytes (record empty_entry { rec_len = rest })))

write_root_dir_block-IsChecked : IsChecked (replicate 6 exit_failure) write_root_dir_block
unfolding write_root_dir_block
write_root_dir_block-IsChecked =
    then-IsChecked (lseek-IsChecked exit_failure (block_offset root_dir_blockno)) (
      then-IsChecked (write_entry-IsChecked exit_failure (root_entry ext2_root_ino 12 dot)) (
        then-IsChecked (write_entry-IsChecked exit_failure (root_entry ext2_root_ino 12 dot_dot)) (
          then-IsChecked
            (write_entry-IsChecked exit_failure
              (root_entry lost_and_found_ino (named_rec_len (length lost_found)) lost_found))
            (then-IsChecked
              (write_entry-IsChecked exit_failure
                (root_entry hello_world_ino (named_rec_len (length hello_world)) hello_world))
              (write_entry-IsChecked exit_failure (root_entry hello_ino hello_rec_len hello))))))

write_lost_and_found_dir_block-IsChecked :
    IsChecked (replicate 4 errno_exit) write_lost_and_found_dir_block
unfolding write_lost_and_found_dir_block
write_lost_and_found_dir_block-IsChecked =
    let current_entry = dir_entry_set empty_entry lost_and_found_ino dot in
    let parent_entry = dir_entry_set empty_entry ext2_root_ino dot_dot in
    then-IsChecked (lseek-IsChecked errno_exit (block_offset lost_and_found_dir_blockno)) (
      then-IsChecked (write_entry-IsChecked errno_exit current_entry) (
        then-IsChecked (write_entry-IsChecked errno_exit parent_entry) (
          dir_entry_write_fill-IsChecked
            (block_size - current_entry.rec_len - parent_entry.rec_len))))

write_hello_world_file_block-IsChecked :
    IsChecked (replicate 2 exit_failure) write_hello_world_file_block
unfolding write_hello_world_file_block
write_hello_world_file_block-IsChecked =
    then-IsChecked (lseek-IsChecked exit_failure (block_offset hello_world_file_blockno))
      (write-IsChecked exit_failure (length file_content) (λ _. bytes_of file_content))

-- The calls of main in their order: 21 to 26 and 31 to 32, for the root directory and the file, exit with
-- EXIT_FAILURE.
abbrev pub main_calls : List OnError
main_calls =
    replicate 21 errno_exit
    ++ replicate 6 exit_failure
    ++ replicate 4 errno_exit
    ++ replicate 2 exit_failure
    ++ replicate 1 errno_exit

pub main-IsChecked : IsChecked main_calls main
unfolding main
main-IsChecked = then-IsChecked plain_call-IsChecked (
    then-IsChecked (ftruncate-IsChecked 0) (
      then-IsChecked (ftruncate-IsChecked (num_blocks * block_size)) (
        then-IsChecked write_superblock-IsChecked (
          then-IsChecked write_block_group_descriptor_table-IsChecked (
            then-IsChecked write_block_bitmap-IsChecked (
              then-IsChecked write_inode_bitmap-IsChecked (
                then-IsChecked write_inode_table-IsChecked (
                  then-IsChecked write_root_dir_block-IsChecked (
                    then-IsChecked write_lost_and_found_dir_block-IsChecked (
                      then-IsChecked write_hello_world_file_block-IsChecked
                        plain_call-IsChecked))))))))))

-- main exits at its first call that fails, with its errno or EXIT_FAILURE as `main_calls` says, and else
-- does what it does when no call fails, which is to return after its 34 calls.
pub main-error :
    (env : Environment) (s : System)
    → (main env s ≡ exited_or (first_failure env main_calls s.calls) (main (no_failure env) s))
      × ReturnsAfter (s.calls + 34) (main (no_failure env) s)
main-error env s = (main-IsChecked.outcome env s, main-IsChecked.returns env s)
