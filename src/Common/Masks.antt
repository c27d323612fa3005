-- ===== src/Common/Masks.antt =====
-- & and | with the masks that C programs write: a field of digits, all but a field, one digit.
use Prim.Native.Nat.{ℕ, zero, suc, ◌+◌, ◌-◌, ◌*◌, ◌/◌, ◌%◌, ◌^◌, ◌≤◌, ◌<◌, bit_and, bit_or}
use native.Mathlib.Nat.{one-le-pow, mod-lt, div-add-mod, mul_comm}
use mathlib.Core.Path.{◌≡◌, refl, sym, ap, ◌∙◌}
use native.Mathlib.Omega.{arith}
use ece344_operating_system.Common.Bits.{
  bit_and-block, bit_or-block, bit_and-zero, bit_or-zero, zero-bit_or, bit_and-ones,
}

below_pow : (k e : ℕ) → e % 2 ^ k < 2 ^ k
below_pow k e = mod-lt e (one-le-pow k 2 (omega arith))

two_blocks : (k e : ℕ) → e ≡ e / 2 ^ k * 2 ^ k + e % 2 ^ k
two_blocks k e =
    sym (div-add-mod e (2 ^ k)) ∙ ap (λ x. x + e % 2 ^ k) (mul_comm (2 ^ k) (e / 2 ^ k))

zero-lt-pow : (k : ℕ) → 0 < 2 ^ k
zero-lt-pow k = one-le-pow k 2 (omega arith)

-- The lowest digits.
pub bit_and-low : (k e : ℕ) → bit_and e (2 ^ k - 1) ≡ e % 2 ^ k
bit_and-low k e =
    ap (λ x. bit_and x (2 ^ k - 1)) (two_blocks k e)
    ∙ ap (bit_and (e / 2 ^ k * 2 ^ k + e % 2 ^ k)) (omega arith)
    ∙ bit_and-block k (e / 2 ^ k) 0 (e % 2 ^ k) (2 ^ k - 1) (below_pow k e)
        (omega (arith, zero-lt-pow k))
    ∙ ap (λ x. x * 2 ^ k + bit_and (e % 2 ^ k) (2 ^ k - 1)) (bit_and-zero (e / 2 ^ k))
    ∙ omega (arith, bit_and-ones k (e % 2 ^ k) (below_pow k e))

-- The `w` digits from `k` on.
pub bit_and-field : (w k e : ℕ) → bit_and e ((2 ^ w - 1) * 2 ^ k) ≡ e / 2 ^ k % 2 ^ w * 2 ^ k
bit_and-field w k e =
    ap (λ x. bit_and x ((2 ^ w - 1) * 2 ^ k)) (two_blocks k e)
    ∙ ap (bit_and (e / 2 ^ k * 2 ^ k + e % 2 ^ k)) (add_zero ((2 ^ w - 1) * 2 ^ k))
    ∙ bit_and-block k (e / 2 ^ k) (2 ^ w - 1) (e % 2 ^ k) 0 (below_pow k e) (zero-lt-pow k)
    ∙ ap (λ x. x * 2 ^ k + bit_and (e % 2 ^ k) 0) (bit_and-low w (e / 2 ^ k))
    ∙ omega (arith, bit_and-zero (e % 2 ^ k))
  where
    add_zero : (x : ℕ) → x ≡ x + 0
    add_zero x = omega arith

-- All but the digits from `k` to `m`.
pub bit_and-hole :
    (n k m e : ℕ)
    → 2 ^ k ≤ 2 ^ m
    → e / 2 ^ m < 2 ^ n
    → bit_and e ((2 ^ n - 1) * 2 ^ m + (2 ^ k - 1)) ≡ e / 2 ^ m * 2 ^ m + e % 2 ^ m % 2 ^ k
bit_and-hole n k m e pow_le fits =
    ap (λ x. bit_and x ((2 ^ n - 1) * 2 ^ m + (2 ^ k - 1))) (two_blocks m e)
    ∙ bit_and-block m (e / 2 ^ m) (2 ^ n - 1) (e % 2 ^ m) (2 ^ k - 1) (below_pow m e)
        (omega (arith, zero-lt-pow k, pow_le))
    ∙ ap (λ x. x * 2 ^ m + bit_and (e % 2 ^ m) (2 ^ k - 1)) (bit_and-ones n (e / 2 ^ m) fits)
    ∙ ap (λ x. e / 2 ^ m * 2 ^ m + x) (bit_and-low k (e % 2 ^ m))

-- Numbers without a common digit.
pub bit_or-disjoint : (k a c : ℕ) → c < 2 ^ k → bit_or (a * 2 ^ k) c ≡ a * 2 ^ k + c
bit_or-disjoint k a c h =
    ap (λ x. bit_or x c) (omega arith)
    ∙ ap (bit_or (a * 2 ^ k + 0)) (omega arith)
    ∙ bit_or-block k a 0 0 c (zero-lt-pow k) h
    ∙ ap (λ x. x * 2 ^ k + bit_or 0 c) (bit_or-zero a)
    ∙ ap (λ x. a * 2 ^ k + x) (zero-bit_or c)

-- The digits from `k` on are joined, the others kept.
pub bit_or-high :
    (k a b c : ℕ) → c < 2 ^ k → bit_or (a * 2 ^ k + c) (b * 2 ^ k) ≡ bit_or a b * 2 ^ k + c
bit_or-high k a b c h =
    ap (bit_or (a * 2 ^ k + c)) (omega arith)
    ∙ bit_or-block k a b c 0 h (zero-lt-pow k)
    ∙ ap (λ x. bit_or a b * 2 ^ k + x) (bit_or-zero c)

-- Digit `k` is set.
pub bit_or-digit : (k e : ℕ) → bit_or e (2 ^ k) ≡ (e / 2 ^ k / 2 * 2 + 1) * 2 ^ k + e % 2 ^ k
bit_or-digit k e =
    ap (λ x. bit_or x (2 ^ k)) (two_blocks k e)
    ∙ ap (bit_or (e / 2 ^ k * 2 ^ k + e % 2 ^ k)) (omega arith)
    ∙ bit_or-high k (e / 2 ^ k) 1 (e % 2 ^ k) (below_pow k e)
    ∙ ap (λ x. x * 2 ^ k + e % 2 ^ k) (lowest (e / 2 ^ k))
  where
    digit : (x : ℕ) → x < 2 → bit_or x 1 ≡ 1
    digit zero h = refl
    digit (suc zero) h = refl
    digit (suc (suc x)) h = absurd (omega (arith, h))

    lowest : (q : ℕ) → bit_or q 1 ≡ q / 2 * 2 + 1
    lowest q =
        ap (λ x. bit_or x 1) (two_blocks 1 q)
        ∙ bit_or-block 1 (q / 2) 0 (q % 2) 1 (omega arith) (omega arith)
        ∙ omega (arith, bit_or-zero (q / 2), digit (q % 2) (omega arith))
