-- ===== src/Ext2/Bitmaps/Bits.antt =====
-- Which bits the loops of hello-ext2/src/ext2-create.c set in a bitmap.
use Prim.Native.Nat.{bit_or}
use native.Mathlib.Nat.{zero-div}
use ece344_operating_system.Common.{
  ℕ, zero, suc, ◌+◌, ◌/◌, ◌%◌, ◌^◌, ◌<◌, ◌≡◌, refl, ap, ◌∙◌, Bool, true, false, ◌&&◌, leb, ltb,
  ◌==◌, ==_iff, if◌then◌else◌, arith, ℕ_discrete,
}
use ece344_operating_system.Common.Tables.{for_all_below, for_all_below_lem}
use ece344_operating_system.Ext2.Bitmaps.{set_bit, set_bits, last_bit, block_bitmap, inode_bitmap}

-- Bit `j` of an array of bytes.
abbrev pub bit_at : (ℕ → ℕ) → ℕ → ℕ
bit_at bitmap j = bitmap (j / 8) / 2 ^ (j % 8) % 2

abbrev digit_set : ℕ → ℕ → ℕ → Bool
digit_set e k l = bit_or e (2 ^ k) % 256 / 2 ^ l % 2 == (if k == l then 1 else e / 2 ^ l % 2)

digit_set_table :
    for_all_below 256 (λ e. for_all_below 8 (λ k. for_all_below 8 (λ l. digit_set e k l))) ≡ true
unfolding for_all_below
digit_set_table = refl

digit_set_lem :
    (e k l : ℕ)
    → e < 256
    → k < 8
    → l < 8
    → bit_or e (2 ^ k) % 256 / 2 ^ l % 2 ≡ (if k == l then 1 else e / 2 ^ l % 2)
digit_set_lem e k l p q r =
    let at_e =
      for_all_below_lem 256 (λ e. for_all_below 8 (λ k. for_all_below 8 (λ l. digit_set e k l))) e
        digit_set_table p in
    let at_k = for_all_below_lem 8 (λ k. for_all_below 8 (λ l. digit_set e k l)) k at_e q in
    (==_iff _ _).0 (for_all_below_lem 8 (λ l. digit_set e k l) l at_k r)

-- In one byte the digits tell the bits apart.
chosen :
    (i j x y : ℕ)
    → i / 8 ≡ j / 8
    → x ≡ y
    → (if i % 8 == j % 8 then 1 else x) ≡ (if i == j then 1 else y)
chosen i j x y same e = ground (arith, same, e)

set_bit-bit_at :
    (bitmap : ℕ → ℕ) (i j : ℕ)
    → ((x : ℕ) → bitmap x < 256)
    → bit_at (set_bit bitmap i) j ≡ (if i == j then 1 else bit_at bitmap j)
set_bit-bit_at bitmap i j bytes = elim (ℕ_discrete (i / 8) (j / 8)) [
  | yes same ↦
      let digit =
        digit_set_lem (bitmap (i / 8)) (i % 8) (j % 8) (bytes (i / 8)) (omega arith)
          (omega arith) in
      let new : set_bit bitmap i (j / 8) ≡ bit_or (bitmap (i / 8)) (2 ^ (i % 8)) % 256 =
        ground (arith, same) in
      let old : bitmap (i / 8) / 2 ^ (j % 8) % 2 ≡ bit_at bitmap j =
        ap (λ x. bitmap x / 2 ^ (j % 8) % 2) same in
      ap (λ x. x / 2 ^ (j % 8) % 2) new ∙ digit ∙ chosen i j _ _ same old
  | no other ↦
      let kept : set_bit bitmap i (j / 8) ≡ bitmap (j / 8) = ground (arith, other) in
      let apart : (i == j) ≡ false = ground (arith, other) in
      ap (λ x. x / 2 ^ (j % 8) % 2) kept ∙ rw apart refl
]

set_bit-IsByte :
    (bitmap : ℕ → ℕ) (i : ℕ) → ((x : ℕ) → bitmap x < 256) → (x : ℕ) → set_bit bitmap i x < 256
set_bit-IsByte bitmap i bytes x = ground (arith, bytes x)

widened :
    (i n j x y : ℕ)
    → x ≡ (if i == j then 1 else y)
    → (if leb (suc i) j && ltb j (suc i + n) then 1 else x)
      ≡ (if leb i j && ltb j (i + suc n) then 1 else y)
widened i n j x y e = ground (arith, e)

-- The loop from `i` over `n` bits sets them, and leaves the others.
pub set_bits-bit_at :
    (n i : ℕ) (bitmap : ℕ → ℕ) (j : ℕ)
    → ((x : ℕ) → bitmap x < 256)
    → bit_at (set_bits n i bitmap) j ≡ (if leb i j && ltb j (i + n) then 1 else bit_at bitmap j)
unfolding set_bits
set_bits-bit_at zero i bitmap j bytes = ground arith
set_bits-bit_at (suc n) i bitmap j bytes =
    let later = set_bits-bit_at n (suc i) (set_bit bitmap i) j (set_bit-IsByte bitmap i bytes) in
    let now = set_bit-bit_at bitmap i j bytes in
    later ∙ widened i n j (bit_at (set_bit bitmap i) j) (bit_at bitmap j) now

set_bits-IsByte :
    (n i : ℕ) (bitmap : ℕ → ℕ) → ((x : ℕ) → bitmap x < 256) → (x : ℕ) → set_bits n i bitmap x < 256
unfolding set_bits
set_bits-IsByte zero i bitmap bytes = bytes
set_bits-IsByte (suc n) i bitmap bytes =
    set_bits-IsByte n (suc i) (set_bit bitmap i) (set_bit-IsByte bitmap i bytes)

no_bits : (j : ℕ) → bit_at (λ _. 0) j ≡ 0
no_bits j = ap (λ x. x % 2) (zero-div (2 ^ (j % 8)))

from_start :
    (m j x : ℕ) → x ≡ 0 → (if leb 0 j && ltb j (0 + m) then 1 else x) ≡ (if ltb j m then 1 else 0)
from_start m j x e = ground (arith, e)

-- Bits of two loops over an array of zeros: those below `m`, and the `n` from `i` on.
two_loops :
    (m n i j : ℕ)
    → bit_at (set_bits n i (set_bits m 0 (λ _. 0))) j
      ≡ (if leb i j && ltb j (i + n) then 1 else (if ltb j m then 1 else 0))
two_loops m n i j =
    set_bits-bit_at n i (set_bits m 0 (λ _. 0)) j (set_bits-IsByte m 0 (λ _. 0) (λ x. omega arith))
    ∙ ap (λ x. if leb i j && ltb j (i + n) then 1 else x)
        (set_bits-bit_at m 0 (λ _. 0) j (λ x. omega arith)
          ∙ from_start m j (bit_at (λ _. 0) j) (no_bits j))

-- In the block bitmap the bits of the used blocks, 1 to 23, are set, and those that stand for no block.
pub block_bitmap-bit_at :
    (j : ℕ)
    → j < last_bit
    → bit_at block_bitmap j ≡ (if ltb j 23 then 1 else (if ltb j 1023 then 0 else 1))
unfolding block_bitmap
block_bitmap-bit_at j lt = two_loops 23 7169 1023 j ∙ ground (arith, lt)

-- In the inode bitmap the bits of inodes 1 to 13 are set, and those that stand for no inode.
pub inode_bitmap-bit_at :
    (j : ℕ)
    → j < last_bit
    → bit_at inode_bitmap j ≡ (if ltb j 13 then 1 else (if ltb j 128 then 0 else 1))
unfolding inode_bitmap
inode_bitmap-bit_at j lt = two_loops 13 8064 128 j ∙ ground (arith, lt)
