-- ===== src/Ext2/Bitmaps.antt =====
-- The bitmaps of hello-ext2/src/ext2-create.c. An array of bytes is a function of the index.
pub mod Bits
use Prim.Native.Nat.{bit_or}
use ece344_operating_system.Common.{ℕ, zero, suc, ◌+◌, ◌-◌, ◌*◌, ◌/◌, ◌%◌, ◌^◌}
use ece344_operating_system.Common.Family.{update}
use ece344_operating_system.Ext2.System.{Environment, errno_exit, M, ◌>>=◌, ◌>>◌, lseek, write}
use ece344_operating_system.Ext2.Layout.{
  block_size, block_offset, last_ino, block_bitmap_blockno, inode_bitmap_blockno, last_block,
}

-- bitmap[i / 8] |= (1 << (i % 8)), in an array of u8.
abbrev pub set_bit : (ℕ → ℕ) → ℕ → ℕ → ℕ
set_bit bitmap i = update bitmap (i / 8) (bit_or (bitmap (i / 8)) (2 ^ (i % 8)) % 256)

-- The loop from `i`, with the rounds that are left.
unfoldable pub set_bits : (rounds i : ℕ) → (ℕ → ℕ) → ℕ → ℕ
set_bits zero i bitmap = bitmap
set_bits (suc rounds) i bitmap = set_bits rounds (suc i) (set_bit bitmap i)

abbrev pub last_bit : ℕ
last_bit = block_size * 8

unfoldable pub block_bitmap : ℕ → ℕ
unfolding set_bits
block_bitmap = set_bits (last_bit - 1023) 1023 (set_bits last_block 0 (λ _. 0))

unfoldable pub write_block_bitmap : Environment → M (Unit {0})
unfolding lseek write
write_block_bitmap env = do
  lseek env errno_exit (block_offset block_bitmap_blockno)
  write env errno_exit block_size block_bitmap

unfoldable pub inode_bitmap : ℕ → ℕ
unfolding set_bits
inode_bitmap = set_bits (last_bit - 128) 128 (set_bits last_ino 0 (λ _. 0))

unfoldable pub write_inode_bitmap : Environment → M (Unit {0})
unfolding lseek write
write_inode_bitmap env = do
  lseek env errno_exit (block_offset inode_bitmap_blockno)
  write env errno_exit block_size inode_bitmap
