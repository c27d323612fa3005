-- ===== src/Ext2/Superblock.antt =====
-- The superblock and the block group descriptor of hello-ext2/src/ext2-create.c.
use ece344_operating_system.Common.{ℕ, ◌-◌, ◌*◌, ◌^◌, List, [], ◌∷◌, ◌++◌}
use ece344_operating_system.Ext2.System.{
  Environment, errno_exit, M, ◌>>=◌, ◌>>◌, lseek, write, get_current_time, bytes_of,
}
use ece344_operating_system.Ext2.Layout.{
  block_size, block_offset, num_blocks, num_inodes, superblock_blockno, block_bitmap_blockno,
  inode_bitmap_blockno, inode_table_blockno, num_free_blocks, num_free_inodes, ext2_super_magic,
  ext2_valid_fs, ext2_errors_continue, u16, u32, zeros, overlay,
}

-- struct ext2_superblock. The arrays of bytes and of u32 are lists of bytes.
pub record Superblock : Type 0 where
  pub s_inodes_count : ℕ
  pub s_blocks_count : ℕ
  pub s_r_blocks_count : ℕ
  pub s_free_blocks_count : ℕ
  pub s_free_inodes_count : ℕ
  pub s_first_data_block : ℕ
  pub s_log_block_size : ℕ
  pub s_log_frag_size : ℕ
  pub s_blocks_per_group : ℕ
  pub s_frags_per_group : ℕ
  pub s_inodes_per_group : ℕ
  pub s_mtime : ℕ
  pub s_wtime : ℕ
  pub s_mnt_count : ℕ
  pub s_max_mnt_count : ℕ
  pub s_magic : ℕ
  pub s_state : ℕ
  pub s_errors : ℕ
  pub s_minor_rev_level : ℕ
  pub s_lastcheck : ℕ
  pub s_checkinterval : ℕ
  pub s_creator_os : ℕ
  pub s_rev_level : ℕ
  pub s_def_resuid : ℕ
  pub s_def_resgid : ℕ
  pub s_pad : List ℕ
  pub s_uuid : List ℕ
  pub s_volume_name : List ℕ
  pub s_reserved : List ℕ

abbrev pub superblock_bytes : Superblock → List ℕ
superblock_bytes r =
    u32 r.s_inodes_count
    ++ (u32 r.s_blocks_count
        ++ (u32 r.s_r_blocks_count
            ++ (u32 r.s_free_blocks_count
                ++ (u32 r.s_free_inodes_count
                    ++ (u32 r.s_first_data_block
                        ++ (u32 r.s_log_block_size
                            ++ (u32 r.s_log_frag_size
                                ++ (u32 r.s_blocks_per_group
                                    ++ (u32 r.s_frags_per_group
                                        ++ (u32 r.s_inodes_per_group
                                            ++ (u32 r.s_mtime
                                                ++ (u32 r.s_wtime
                                                    ++ (u16 r.s_mnt_count
                                                        ++ (u16 r.s_max_mnt_count
                                                            ++ (u16 r.s_magic
                                                            ++ (u16 r.s_state
                                                            ++ (u16 r.s_errors
                                                            ++ (u16 r.s_minor_rev_level
                                                            ++ (u32 r.s_lastcheck
                                                            ++ (u32 r.s_checkinterval
                                                            ++ (u32 r.s_creator_os
                                                            ++ (u32 r.s_rev_level
                                                            ++ (u16 r.s_def_resuid
                                                            ++ (u16 r.s_def_resgid
                                                            ++ (r.s_pad
                                                            ++ (r.s_uuid
                                                            ++ (r.s_volume_name
                                                            ++ (r.s_reserved))))))))))))))))))))))))))))

abbrev pub uuid : List ℕ
uuid =
    0x5A ∷ 0x1E ∷ 0xAB ∷ 0x1E ∷ 0x13 ∷ 0x37 ∷ 0x13 ∷ 0x37 ∷ 0x13 ∷ 0x37 ∷ 0xC0 ∷ 0xFF ∷ 0xEE ∷ 0xC0
    ∷ 0xFF ∷ 0xEE ∷ []

abbrev pub superblock : (current_time : ℕ) → Superblock
superblock current_time = record {
  s_inodes_count = num_inodes;
  s_blocks_count = num_blocks;
  s_r_blocks_count = 0;
  s_free_blocks_count = num_free_blocks;
  s_free_inodes_count = num_free_inodes;
  s_first_data_block = superblock_blockno;
  s_log_block_size = 0;
  s_log_frag_size = 0;
  s_blocks_per_group = block_size * 8;
  s_frags_per_group = block_size * 8;
  s_inodes_per_group = num_inodes;
  s_mtime = 0;
  s_wtime = current_time;
  s_mnt_count = 0;
  s_max_mnt_count = 2 ^ 16 - 1;
  s_magic = ext2_super_magic;
  s_state = ext2_valid_fs;
  s_errors = ext2_errors_continue;
  s_minor_rev_level = 0;
  s_lastcheck = current_time;
  s_checkinterval = 1;
  s_creator_os = 0;
  s_rev_level = 0;
  s_def_resuid = 0;
  s_def_resgid = 0;
  s_pad = zeros 20;
  s_uuid = uuid;
  s_volume_name = overlay (b'h' ∷ b'e' ∷ b'l' ∷ b'l' ∷ b'o' ∷ []) (zeros 16);
  s_reserved = zeros 916;
}

-- sizeof (superblock): with 229 elements of s_reserved it is more than a block, and the write runs into
-- the block behind.
abbrev pub sizeof_superblock : ℕ
sizeof_superblock = 1052

unfoldable pub write_superblock : Environment → M (Unit {0})
unfolding lseek write get_current_time
write_superblock env = do
  lseek env errno_exit (block_offset 1)
  current_time ← get_current_time env
  write env errno_exit sizeof_superblock (bytes_of (superblock_bytes (superblock current_time)))

-- struct ext2_block_group_descriptor
pub record BlockGroupDescriptor : Type 0 where
  pub bg_block_bitmap : ℕ
  pub bg_inode_bitmap : ℕ
  pub bg_inode_table : ℕ
  pub bg_free_blocks_count : ℕ
  pub bg_free_inodes_count : ℕ
  pub bg_used_dirs_count : ℕ
  pub bg_pad : ℕ
  pub bg_reserved : List ℕ

abbrev pub block_group_descriptor_bytes : BlockGroupDescriptor → List ℕ
block_group_descriptor_bytes r =
    u32 r.bg_block_bitmap
    ++ (u32 r.bg_inode_bitmap
        ++ (u32 r.bg_inode_table
            ++ (u16 r.bg_free_blocks_count
                ++ (u16 r.bg_free_inodes_count
                    ++ (u16 r.bg_used_dirs_count ++ (u16 r.bg_pad ++ (r.bg_reserved)))))))

abbrev pub block_group_descriptor : BlockGroupDescriptor
block_group_descriptor = record {
  bg_block_bitmap = block_bitmap_blockno;
  bg_inode_bitmap = inode_bitmap_blockno;
  bg_inode_table = inode_table_blockno;
  bg_free_blocks_count = num_free_blocks;
  bg_free_inodes_count = num_free_inodes;
  bg_used_dirs_count = 2;
  bg_pad = 0;
  bg_reserved = zeros 12;
}

unfoldable pub write_block_group_descriptor_table : Environment → M (Unit {0})
unfolding lseek write
write_block_group_descriptor_table env = do
  lseek env errno_exit (block_offset 2)
  write env errno_exit 32 (bytes_of (block_group_descriptor_bytes block_group_descriptor))
