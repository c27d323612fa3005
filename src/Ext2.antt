-- ===== src/Ext2.antt =====
-- The writer of an ext2 image, hello-ext2/src/ext2-create.c.
mod Tests
pub mod System
pub mod Layout
pub mod Superblock
pub mod Bitmaps
pub mod Inodes
pub mod Directories
pub mod Create
pub mod Writes
pub mod Reader
