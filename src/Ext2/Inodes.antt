-- ===== src/Ext2/Inodes.antt =====
-- The inodes of hello-ext2/src/ext2-create.c.
use Prim.Native.Nat.{bit_or}
use ece344_operating_system.Common.{ℕ, ◌+◌, ◌-◌, ◌*◌, ◌%◌, ◌^◌, List, [], ◌∷◌, ◌++◌, length}
use ece344_operating_system.Ext2.System.{
  Environment, errno_exit, M, ◌>>=◌, ◌>>◌, lseek, write, get_current_time, bytes_of,
}
use ece344_operating_system.Ext2.Layout.{
  block_offset, ext2_root_ino, ext2_s_iflnk, ext2_s_ifreg, ext2_s_ifdir, ext2_s_irusr, ext2_s_iwusr,
  ext2_s_ixusr, ext2_s_irgrp, ext2_s_ixgrp, ext2_s_iroth, ext2_s_ixoth, lost_and_found_ino,
  hello_world_ino, hello_ino, inode_table_blockno, root_dir_blockno, lost_and_found_dir_blockno,
  hello_world_file_blockno, ext2_n_blocks, u8, u16, u32, zeros, overlay,
}

-- struct ext2_inode. The arrays of u32 are lists of bytes.
pub record Inode : Type 0 where
  pub i_mode : ℕ
  pub i_uid : ℕ
  pub i_size : ℕ
  pub i_atime : ℕ
  pub i_ctime : ℕ
  pub i_mtime : ℕ
  pub i_dtime : ℕ
  pub i_gid : ℕ
  pub i_links_count : ℕ
  pub i_blocks : ℕ
  pub i_flags : ℕ
  pub i_reserved1 : ℕ
  pub i_block : List ℕ
  pub i_version : ℕ
  pub i_file_acl : ℕ
  pub i_dir_acl : ℕ
  pub i_faddr : ℕ
  pub i_frag : ℕ
  pub i_fsize : ℕ
  pub i_pad1 : ℕ
  pub i_reserved2 : List ℕ

abbrev pub inode_bytes : Inode → List ℕ
inode_bytes r =
    u16 r.i_mode
    ++ (u16 r.i_uid
        ++ (u32 r.i_size
            ++ (u32 r.i_atime
                ++ (u32 r.i_ctime
                    ++ (u32 r.i_mtime
                        ++ (u32 r.i_dtime
                            ++ (u16 r.i_gid
                                ++ (u16 r.i_links_count
                                    ++ (u32 r.i_blocks
                                        ++ (u32 r.i_flags
                                            ++ (u32 r.i_reserved1
                                                ++ (r.i_block
                                                    ++ (u32 r.i_version
                                                        ++ (u32 r.i_file_acl
                                                            ++ (u32 r.i_dir_acl
                                                            ++ (u32 r.i_faddr
                                                            ++ (u8 r.i_frag
                                                            ++ (u8 r.i_fsize
                                                            ++ (u16 r.i_pad1
                                                            ++ (r.i_reserved2))))))))))))))))))))

abbrev pub directory_mode : ℕ
directory_mode =
    bit_or
      (bit_or
        (bit_or
          (bit_or (bit_or (bit_or (bit_or ext2_s_ifdir ext2_s_irusr) ext2_s_iwusr) ext2_s_ixusr)
            ext2_s_irgrp)
          ext2_s_ixgrp)
        ext2_s_iroth)
      ext2_s_ixoth

abbrev pub file_mode : ℕ → ℕ
file_mode kind =
    bit_or (bit_or (bit_or (bit_or kind ext2_s_irusr) ext2_s_iwusr) ext2_s_irgrp) ext2_s_iroth

-- i_block[0] = ..., in an array that is zero otherwise.
abbrev pub first_block : ℕ → List ℕ
first_block blockno = overlay (u32 blockno) (zeros (4 * ext2_n_blocks))

abbrev pub hello_target : List ℕ
hello_target = b'h' ∷ b'e' ∷ b'l' ∷ b'l' ∷ b'o' ∷ b'-' ∷ b'w' ∷ b'o' ∷ b'r' ∷ b'l' ∷ b'd' ∷ []

abbrev pub lost_and_found_inode : (current_time : ℕ) → Inode
lost_and_found_inode current_time = record {
  i_mode = directory_mode;
  i_uid = 0;
  i_size = 1024;
  i_atime = current_time;
  i_ctime = current_time;
  i_mtime = current_time;
  i_dtime = 0;
  i_gid = 0;
  i_links_count = 2;
  i_blocks = 2;
  i_flags = 0;
  i_reserved1 = 0;
  i_block = first_block lost_and_found_dir_blockno;
  i_version = 0;
  i_file_acl = 0;
  i_dir_acl = 0;
  i_faddr = 0;
  i_frag = 0;
  i_fsize = 0;
  i_pad1 = 0;
  i_reserved2 = zeros 8;
}

abbrev pub root_inode : (current_time : ℕ) → Inode
root_inode current_time = record {
  i_mode = directory_mode;
  i_uid = 0;
  i_size = 1024;
  i_atime = current_time;
  i_ctime = current_time;
  i_mtime = current_time;
  i_dtime = 0;
  i_gid = 0;
  i_links_count = 3;
  i_blocks = 2;
  i_flags = 0;
  i_reserved1 = 0;
  i_block = first_block root_dir_blockno;
  i_version = 0;
  i_file_acl = 0;
  i_dir_acl = 0;
  i_faddr = 0;
  i_frag = 0;
  i_fsize = 0;
  i_pad1 = 0;
  i_reserved2 = zeros 8;
}

abbrev pub hello_world_inode : (current_time : ℕ) → Inode
hello_world_inode current_time = record {
  i_mode = file_mode ext2_s_ifreg;
  i_uid = 1000;
  i_size = 12;
  i_atime = current_time;
  i_ctime = current_time;
  i_mtime = current_time;
  i_dtime = 0;
  i_gid = 1000;
  i_links_count = 1;
  i_blocks = 2;
  i_flags = 0;
  i_reserved1 = 0;
  i_block = first_block hello_world_file_blockno;
  i_version = 0;
  i_file_acl = 0;
  i_dir_acl = 0;
  i_faddr = 0;
  i_frag = 0;
  i_fsize = 0;
  i_pad1 = 0;
  i_reserved2 = zeros 8;
}

-- The target of the link stands in i_block.
abbrev pub hello_inode : (current_time : ℕ) → Inode
hello_inode current_time = record {
  i_mode = file_mode ext2_s_iflnk;
  i_uid = 1000;
  i_size = length hello_target;
  i_atime = current_time;
  i_ctime = current_time;
  i_mtime = current_time;
  i_dtime = 0;
  i_gid = 1000;
  i_links_count = 1;
  i_blocks = 0;
  i_flags = 0;
  i_reserved1 = 0;
  i_block = overlay hello_target (zeros (4 * ext2_n_blocks));
  i_version = 0;
  i_file_acl = 0;
  i_dir_acl = 0;
  i_faddr = 0;
  i_frag = 0;
  i_fsize = 0;
  i_pad1 = 0;
  i_reserved2 = zeros 8;
}

-- index - 1 wraps around in a u32.
abbrev pub inode_offset : (index : ℕ) → ℕ
inode_offset index = block_offset inode_table_blockno + (index + 2 ^ 32 - 1) % 2 ^ 32 * 128

unfoldable pub write_inode : Environment → (index : ℕ) → Inode → M (Unit {0})
unfolding lseek write
write_inode env index inode = do
  lseek env errno_exit (inode_offset index)
  write env errno_exit 128 (bytes_of (inode_bytes inode))

unfoldable pub write_inode_table : Environment → M (Unit {0})
unfolding write_inode get_current_time
write_inode_table env = do
  current_time ← get_current_time env
  write_inode env lost_and_found_ino (lost_and_found_inode current_time)
  write_inode env ext2_root_ino (root_inode current_time)
  write_inode env hello_world_ino (hello_world_inode current_time)
  write_inode env hello_ino (hello_inode current_time)
