-- ===== src/Common/Bits.antt =====
-- The operators & and | of C on numbers below 2 ^ 64: their laws at blocks of digits.
use Prim.Native.Nat.{
  ℕ, zero, suc, ◌+◌, ◌-◌, ◌*◌, ◌/◌, ◌%◌, ◌^◌, ◌≤◌, ◌<◌, min, max, digits, bitwise, bit_and, bit_or,
  bit_and-bitwise, bit_or-bitwise,
}
use native.Mathlib.Nat.{mul_assoc, pow-suc, one-le-pow}
use mathlib.Core.Path.{◌≡◌, refl, sym, ap, ◌∙◌}
use native.Mathlib.Omega.{arith}

-- An operation on digits: `z` is what it gives against a first number that has run out.
module _ (z : ℕ → ℕ) (f : ℕ → ℕ → ℕ) (z_step : (b : ℕ) → z b ≡ z (b / 2) * 2 + f 0 (b % 2)) where
  -- Any two counts of digits that are enough give the same.
  digits-enough : (n m a b : ℕ) → a ≤ n → a ≤ m → digits z f n a b ≡ digits z f m a b
  digits-enough zero zero a b p q = refl
  digits-enough (suc n) (suc m) zero b p q = refl
  digits-enough zero (suc m) zero b p q = refl
  digits-enough (suc n) zero zero b p q = refl
  digits-enough zero m (suc a) b p q = absurd (omega arith)
  digits-enough (suc n) zero (suc a) b p q = absurd (omega arith)
  digits-enough (suc n) (suc m) (suc a) b p q =
      ap (λ x. x * 2 + f (suc a % 2) (b % 2))
        (digits-enough n m (suc a / 2) (b / 2) (omega arith) (omega arith))

  digits-lowest : (a b : ℕ) → bitwise z f a b ≡ bitwise z f (a / 2) (b / 2) * 2 + f (a % 2) (b % 2)
  digits-lowest zero b = z_step b
  digits-lowest (suc a) b =
      ap (λ x. x * 2 + f (suc a % 2) (b % 2))
        (digits-enough a (suc a / 2) (suc a / 2) (b / 2) (omega arith) (omega arith))

  -- The digits from `k` on, and those below, go their own ways.
  digits-block :
      (k a b c d : ℕ)
      → c < 2 ^ k
      → d < 2 ^ k
      → bitwise z f (a * 2 ^ k + c) (b * 2 ^ k + d) ≡ bitwise z f a b * 2 ^ k + bitwise z f c d
  digits-block zero a b zero zero p q =
      ap (λ x. bitwise z f x (b * 1 + 0)) (alone a)
      ∙ ap (bitwise z f a) (alone b)
      ∙ omega (arith, z_step 0)
    where
      alone : (x : ℕ) → x * 1 + 0 ≡ x
      alone x = omega arith
  digits-block zero a b (suc c) d p q = absurd (omega (arith, p))
  digits-block zero a b zero (suc d) p q = absurd (omega (arith, q))
  digits-block (suc k) a b c d p q =
      digits-lowest (a * 2 ^ suc k + c) (b * 2 ^ suc k + d)
      ∙ ap (λ x. x * 2 + f ((a * 2 ^ suc k + c) % 2) ((b * 2 ^ suc k + d) % 2))
          (ap (λ x. bitwise z f x ((b * 2 ^ suc k + d) / 2)) (half a c)
            ∙ ap (bitwise z f (a * 2 ^ k + c / 2)) (half b d)
            ∙ digits-block k a b (c / 2) (d / 2) (omega (arith, p)) (omega (arith, q)))
      ∙ ap
          (λ x.
            (bitwise z f a b * 2 ^ k + bitwise z f (c / 2) (d / 2)) * 2
            + f x ((b * 2 ^ suc k + d) % 2))
          (odd a c)
      ∙ ap (λ x. (bitwise z f a b * 2 ^ k + bitwise z f (c / 2) (d / 2)) * 2 + f (c % 2) x)
          (odd b d)
      ∙ omega (arith, digits-lowest c d, double (bitwise z f a b))
    where
      double : (x : ℕ) → x * 2 ^ suc k ≡ x * 2 ^ k * 2
      double x = ap (λ y. x * y) (pow-suc 2 k) ∙ sym (mul_assoc x (2 ^ k) 2)

      half : (x y : ℕ) → (x * 2 ^ suc k + y) / 2 ≡ x * 2 ^ k + y / 2
      half x y = omega (arith, double x)

      odd : (x y : ℕ) → (x * 2 ^ suc k + y) % 2 ≡ y % 2
      odd x y = omega (arith, double x)

pub bit_and-block :
    (k a b c d : ℕ)
    → c < 2 ^ k
    → d < 2 ^ k
    → bit_and (a * 2 ^ k + c) (b * 2 ^ k + d) ≡ bit_and a b * 2 ^ k + bit_and c d
bit_and-block k a b c d p q =
    bit_and-bitwise (a * 2 ^ k + c) (b * 2 ^ k + d)
    ∙ digits-block (λ b. zero) min (λ b. omega arith) k a b c d p q
    ∙ ap (λ x. x * 2 ^ k + bitwise (λ b. zero) min c d) (sym (bit_and-bitwise a b))
    ∙ ap (λ x. bit_and a b * 2 ^ k + x) (sym (bit_and-bitwise c d))

pub bit_or-block :
    (k a b c d : ℕ)
    → c < 2 ^ k
    → d < 2 ^ k
    → bit_or (a * 2 ^ k + c) (b * 2 ^ k + d) ≡ bit_or a b * 2 ^ k + bit_or c d
bit_or-block k a b c d p q =
    bit_or-bitwise (a * 2 ^ k + c) (b * 2 ^ k + d)
    ∙ digits-block (λ b. b) max (λ b. omega arith) k a b c d p q
    ∙ ap (λ x. x * 2 ^ k + bitwise (λ b. b) max c d) (sym (bit_or-bitwise a b))
    ∙ ap (λ x. bit_or a b * 2 ^ k + x) (sym (bit_or-bitwise c d))

and_digits-zero : (n a : ℕ) → digits (λ b. zero) min n a 0 ≡ 0
and_digits-zero zero a = refl
and_digits-zero (suc n) zero = refl
and_digits-zero (suc n) (suc a) = omega (arith, and_digits-zero n (suc a / 2))

or_digits-zero : (n a : ℕ) → a ≤ n → digits (λ b. b) max n a 0 ≡ a
or_digits-zero zero zero h = refl
or_digits-zero zero (suc a) h = absurd (omega arith)
or_digits-zero (suc n) zero h = refl
or_digits-zero (suc n) (suc a) h = omega (arith, or_digits-zero n (suc a / 2) (omega arith))

pub bit_and-zero : (a : ℕ) → bit_and a 0 ≡ 0
bit_and-zero a = bit_and-bitwise a 0 ∙ and_digits-zero a a

pub bit_or-zero : (a : ℕ) → bit_or a 0 ≡ a
bit_or-zero a = bit_or-bitwise a 0 ∙ or_digits-zero a a (omega arith)

pub zero-bit_or : (a : ℕ) → bit_or 0 a ≡ a
zero-bit_or a = bit_or-bitwise 0 a

pub zero-bit_and : (a : ℕ) → bit_and 0 a ≡ 0
zero-bit_and a = bit_and-bitwise 0 a

-- A mask of ones keeps what fits in it.
pub bit_and-ones : (k a : ℕ) → a < 2 ^ k → bit_and a (2 ^ k - 1) ≡ a
bit_and-ones zero zero h = zero-bit_and 0
bit_and-ones zero (suc a) h = absurd (omega (arith, h))
bit_and-ones (suc k) a h =
    bit_and-bitwise a (2 ^ suc k - 1)
    ∙ digits-lowest (λ b. zero) min (λ b. omega arith) a (2 ^ suc k - 1)
    ∙ ap (λ x. x * 2 + min (a % 2) ((2 ^ suc k - 1) % 2))
        (sym (bit_and-bitwise (a / 2) ((2 ^ suc k - 1) / 2))
          ∙ ap (bit_and (a / 2)) halved
          ∙ bit_and-ones k (a / 2) (omega (arith, h, pow-suc 2 k)))
    ∙ omega (arith, odd)
  where
    halved : (2 ^ suc k - 1) / 2 ≡ 2 ^ k - 1
    halved = omega (arith, pow-suc 2 k)

    odd : (2 ^ suc k - 1) % 2 ≡ 1
    odd = omega (arith, pow-suc 2 k, one-le-pow k 2 (omega arith))

bit_and-lowest : (a b : ℕ) → bit_and a b ≡ bit_and (a / 2) (b / 2) * 2 + min (a % 2) (b % 2)
bit_and-lowest a b = omega (
  arith,
  bit_and-bitwise a b,
  bit_and-bitwise (a / 2) (b / 2),
  digits-lowest (λ b. zero) min (λ b. omega arith) a b,
)

bit_and_comm_below : (n a b : ℕ) → a ≤ n → bit_and a b ≡ bit_and b a
bit_and_comm_below n zero b h = zero-bit_and b ∙ sym (bit_and-zero b)
bit_and_comm_below zero (suc a) b h = absurd (omega (arith, h))
bit_and_comm_below (suc n) (suc a) b h = omega (
  arith,
  bit_and-lowest (suc a) b,
  bit_and-lowest b (suc a),
  bit_and_comm_below n (suc a / 2) (b / 2) (omega (arith, h)),
)

pub bit_and_comm : (a b : ℕ) → bit_and a b ≡ bit_and b a
bit_and_comm a b = bit_and_comm_below a a b (omega arith)
