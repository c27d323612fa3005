-- ===== src/Common/Family.antt =====
-- Families `ℕ → A` indexed by a thread or a lock: a write at one index, and sums over the first `n`.
use Prim.Native.Nat.{ℕ, zero, suc, ◌+◌, ◌≤◌, ◌<◌}
use mathlib.Core.Path.{◌≡◌, refl}
use mathlib.Core.Logic.{◌≢◌}
use native.Mathlib.Decide.{ℕ_discrete}
use native.Mathlib.Omega.{arith}
use ece344_operating_system.Common.Tests.{◌==◌, if◌then◌else◌}

module _ {ℓ} {A : Type ℓ} where
  abbrev pub update : (ℕ → A) → ℕ → A → ℕ → A
  update f i a j = if i == j then a else f j

  -- A property of every member holds after a write that has it.
  pub All-update {κ} :
      (P : A → Type κ) (f : ℕ → A) (i : ℕ) (a : A)
      → P a
      → ((j : ℕ) → i ≢ j → P (f j))
      → (j : ℕ) → P (update f i a j)
  All-update P f i a pa rest j = elim (ℕ_discrete i j) [
    | yes e ↦ let same : update f i a j ≡ a = ground arith in rw same pa
    | no e ↦ let same : update f i a j ≡ f j = ground arith in rw same (rest j e)
  ]

  unfoldable pub sum_over : (A → ℕ) → ℕ → (ℕ → A) → ℕ
  sum_over w zero f = 0
  sum_over w (suc n) f = sum_over w n f + w (f n)

  sum_over-update_above :
      (w : A → ℕ) (n : ℕ) (f : ℕ → A) (i : ℕ) (a : A)
      → n ≤ i
      → sum_over w n (update f i a) ≡ sum_over w n f
  unfolding sum_over
  sum_over-update_above w zero f i a h = refl
  sum_over-update_above w (suc n) f i a h = ground (arith, sum_over-update_above w n f i a)

  -- A write exchanges one summand.
  pub sum_over-update :
      (w : A → ℕ) (n : ℕ) (f : ℕ → A) (i : ℕ) (a : A)
      → i < n
      → sum_over w n (update f i a) + w (f i) ≡ sum_over w n f + w a
  unfolding sum_over
  sum_over-update w zero f i a h = absurd (omega arith)
  sum_over-update w (suc n) f i a h = elim (ℕ_discrete i n) [
    | yes e ↦ ground (arith, sum_over-update_above w n f i a, e)
    | no e ↦ ground (arith, sum_over-update w n f i a)
  ]

  pub sum_over-zero : (w : A → ℕ) (n : ℕ) (f : ℕ → A) → ((i : ℕ) → w (f i) ≡ 0) → sum_over w n f ≡ 0
  unfolding sum_over
  sum_over-zero w zero f h = refl
  sum_over-zero w (suc n) f h = omega (arith, sum_over-zero w n f h, h n)
