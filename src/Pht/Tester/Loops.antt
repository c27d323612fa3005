-- ===== src/Pht/Tester/Loops.antt =====
-- Loops of pht/src/pht-tester.c.
use ece344_operating_system.Common.{
  ℕ, zero, suc, ◌+◌, ◌<◌, ◌≤◌, ◌≡◌, refl, subst, ap, ◌∙◌, arith, ℕ_discrete,
}
use ece344_operating_system.Pht.Tester.{for_each}

-- A property that a loop keeps, by what its rounds keep.
pub for_each-rounds :
    {S : Type 0} (P : S → Type 0) (rounds i : ℕ) (body : ℕ → S → S) (s : S)
    → ((j : ℕ) → i ≤ j → j < i + rounds → (t : S) → P t → P (body j t))
    → P s
    → P (for_each rounds i body s)
unfolding for_each
for_each-rounds P zero i body s step h = h
for_each-rounds P (suc rounds) i body s step h =
    for_each-rounds P rounds (suc i) body (body i s)
      (λ j from below. step j (omega (arith, from)) (omega (arith, below)))
      (step i (omega arith) (omega arith) s h)

pub for_each-keeps :
    {S : Type 0} (P : S → Type 0) (rounds i : ℕ) (body : ℕ → S → S) (s : S)
    → ((j : ℕ) (t : S) → P t → P (body j t))
    → P s
    → P (for_each rounds i body s)
for_each-keeps P rounds i body s step = for_each-rounds P rounds i body s (λ j _ _. step j)

-- What the body makes true at an index and keeps at the others is true after the loop, where the
-- body may rely on an invariant.
module _ {S : Type 0} (Inv : S → Type 0) (P : ℕ → S → Type 0) (body : ℕ → S → S) where
  pub for_each-does :
      ((j : ℕ) (t : S) → Inv t → Inv (body j t))
      → ((j : ℕ) (t : S) → Inv t → P j (body j t))
      → ((j k : ℕ) (t : S) → Inv t → P k t → P k (body j t))
      → (rounds i : ℕ) (s : S) → Inv s
      → (k : ℕ) → i ≤ k
      → k < i + rounds
      → P k (for_each rounds i body s)
  unfolding for_each
  for_each-does inv does keeps zero i s h k from below = absurd (omega (arith, from, below))
  for_each-does inv does keeps (suc rounds) i s h k from below = elim (ℕ_discrete i k) [
    | yes e ↦
        (for_each-keeps (λ t. Inv t × P k t) rounds (suc i) body (body i s)
          (λ j t (both : Inv t × P k t). (inv j t both.0, keeps j k t both.0 both.1))
          (inv i s h, subst (λ m. P m (body i s)) e (does i s h))).1
    | no other ↦
        for_each-does inv does keeps rounds (suc i) (body i s) (inv i s h) k
          (omega (arith, from, other)) (omega (arith, below))
  ]

-- A loop whose body does nothing.
pub for_each-same :
    {S : Type 0} (rounds i : ℕ) (body : ℕ → S → S) (s : S)
    → ((j : ℕ) → i ≤ j → j < i + rounds → body j s ≡ s)
    → for_each rounds i body s ≡ s
unfolding for_each
for_each-same zero i body s same = refl
for_each-same (suc rounds) i body s same =
    ap (for_each rounds (suc i) body) (same i (omega arith) (omega arith))
    ∙ for_each-same rounds (suc i) body s
        (λ j from below. same j (omega (arith, from)) (omega (arith, below)))
