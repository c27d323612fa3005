-- ===== src/Ext2/Create/Counts.antt =====
-- The free blocks and inodes of the file that main of hello-ext2/src/ext2-create.c leaves.
use ece344_operating_system.Common.{
  ◌⊎◌, inl, inr, ℕ, zero, suc, ◌+◌, ◌-◌, ◌/◌, ◌%◌, ◌^◌, ◌≤◌, ◌<◌, ◌≡◌, ap, ◌∙◌, sym, subst, ltb,
  if◌then◌else◌, arith,
}
use ece344_operating_system.Ext2.System.{Environment, System, ok, write_bytes}
use ece344_operating_system.Ext2.Create.{main, opened}
use ece344_operating_system.Ext2.Create.Writes.{
  final, main-final, final-block_bitmap, final-inode_bitmap,
}
use ece344_operating_system.Ext2.Layout.{block_size}
use ece344_operating_system.Ext2.Bitmaps.Bits.{block_bitmap-bit_at, inode_bitmap-bit_at}
use ece344_operating_system.Ext2.Reader.{
  read_u16, read_u32, descriptor_address, data_address, block_bit, inode_bit, count_clear,
}

-- The bits from `i` on, the clear ones from `m` on.
count_clear-from :
    (n i m : ℕ) (bit : ℕ → ℕ)
    → ((j : ℕ) → i ≤ j → j < i + n → bit j ≡ (if ltb j m then 1 else 0))
    → count_clear n i bit ≡ (i + n - m) - (i - m)
unfolding count_clear
count_clear-from zero i m bit bits = omega arith
count_clear-from (suc n) i m bit bits =
    let later =
      count_clear-from n (i + 1) m bit
        (λ j from below. bits j (omega (arith, from)) (omega (arith, below))) in
    let now = bits i (omega arith) (omega arith) in ground (arith, later, now)

-- The blocks of the file system are 1 to 1023, the inodes 1 to 128. Blocks 1 to 20 are the superblock,
-- the descriptors, the bitmaps and the inodes.
pub record IsConsistent (t : System) : Type 0 where
  pub used_blocks : (b : ℕ) → 1 ≤ b → b < 1024 → block_bit t.image b ≡ (if ltb b 24 then 1 else 0)
  pub used_inodes :
      (ino : ℕ) → 1 ≤ ino → ino ≤ 128 → inode_bit t.image ino ≡ (if ltb ino 14 then 1 else 0)
  pub data_blocks :
      (ino : ℕ)
      → (ino ≡ 2) ⊎ (ino ≡ 11) ⊎ (ino ≡ 12)
      → block_bit t.image (data_address t.image ino / block_size) ≡ 1
  pub s_free_blocks : read_u32 t.image 1036 ≡ count_clear 1023 1 (block_bit t.image)
  pub bg_free_blocks :
      read_u16 t.image (descriptor_address t.image + 12) ≡ count_clear 1023 1 (block_bit t.image)
  pub s_free_inodes : read_u32 t.image 1040 ≡ count_clear 128 1 (inode_bit t.image)
  pub bg_free_inodes :
      read_u16 t.image (descriptor_address t.image + 14) ≡ count_clear 128 1 (inode_bit t.image)

module _ (env : Environment) (image : ℕ → ℕ) (size : ℕ) where
  block_bit_lem :
      (b : ℕ)
      → 1 ≤ b
      → b < 1024
      → block_bit (final env image size).image b ≡ (if ltb b 24 then 1 else 0)
  unfolding main write_bytes
  block_bit_lem b from below =
      ap (λ x. x / 2 ^ ((b - 1) % 8) % 2)
        (final-block_bitmap env image size ((b - 1) / 8) (omega (arith, from, below)))
      ∙ block_bitmap-bit_at (b - 1) (omega (arith, below))
      ∙ ground (arith, from, below)

  inode_bit_lem :
      (ino : ℕ)
      → 1 ≤ ino
      → ino ≤ 128
      → inode_bit (final env image size).image ino ≡ (if ltb ino 14 then 1 else 0)
  unfolding main write_bytes
  inode_bit_lem ino from below =
      ap (λ x. x / 2 ^ ((ino - 1) % 8) % 2)
        (final-inode_bitmap env image size ((ino - 1) / 8) (omega (arith, from, below)))
      ∙ inode_bitmap-bit_at (ino - 1) (omega (arith, below))
      ∙ ground (arith, from, below)

  clear_blocks : count_clear 1023 1 (block_bit (final env image size).image) ≡ 1000
  clear_blocks =
      count_clear-from 1023 1 24 (block_bit (final env image size).image)
        (λ j from below. block_bit_lem j from below)

  clear_inodes : count_clear 128 1 (inode_bit (final env image size).image) ≡ 115
  clear_inodes =
      count_clear-from 128 1 14 (inode_bit (final env image size).image)
        (λ j from below. inode_bit_lem j from (omega (arith, below)))

  data_block_lem :
      (ino : ℕ)
      → (ino ≡ 2) ⊎ (ino ≡ 11) ⊎ (ino ≡ 12)
      → block_bit
          (final env image size).image
          (data_address (final env image size).image ino / block_size)
        ≡ 1
  unfolding main write_bytes
  data_block_lem ino (inl e) = rw e (block_bit_lem 21 (omega arith) (omega arith))
  data_block_lem ino (inr (inl e)) = rw e (block_bit_lem 22 (omega arith) (omega arith))
  data_block_lem ino (inr (inr e)) = rw e (block_bit_lem 23 (omega arith) (omega arith))

  final-IsConsistent : IsConsistent (final env image size)
  unfolding main write_bytes
  final-IsConsistent = record {
    used_blocks = block_bit_lem;
    used_inodes = inode_bit_lem;
    data_blocks = data_block_lem;
    s_free_blocks = sym clear_blocks;
    bg_free_blocks = sym clear_blocks;
    s_free_inodes = sym clear_inodes;
    bg_free_inodes = sym clear_inodes;
  }

-- Once main returns, the bitmaps mark just blocks 1 to 23 and inodes 1 to 13 as used, the blocks of the
-- directories and of the file with them, and both pairs of free counts count the clear bits.
pub main-IsConsistent :
    (env : Environment) (image : ℕ → ℕ) (size : ℕ) (t : System)
    → main env (opened image size) ≡ ok tt t
    → IsConsistent t
main-IsConsistent env image size t e =
    subst IsConsistent (main-final env image size t e) (final-IsConsistent env image size)
