-- ===== src/Vms/Pages/Valid.antt =====
-- vms/src/pages.c: allocation keeps count of the pages, and every free page holds zeros.
use ece344_operating_system.Common.{
  ℕ, zero, suc, ◌+◌, ◌-◌, ◌*◌, ◌/◌, ◌%◌, ◌^◌, ◌≤◌, ◌<◌, ◌≡◌, refl, sym, ap, ◌∙◌, ◌⊎◌, inl, inr,
  Bool, true, false, none, some, arith, ℕ_discrete, Option-cases, Bool-cases,
}
use ece344_operating_system.Common.Family.{update, sum_over}
use ece344_operating_system.Common.Int.{pos}
use ece344_operating_system.Vms.Machine.{page_size, max_pages, Machine, ok, exited}
use ece344_operating_system.Vms.Pages.{
  vms_get_page_pointer, to_int, vms_get_page_index, find_free, enomem, vms_new_page,
}

abbrev pub weight : Bool → ℕ
weight true = 1
weight false = 0

-- The byte at an offset in the page with this index.
abbrev pub page_byte : Machine → ℕ → ℕ → ℕ
page_byte s i offset = s.memory (s.base_pointer + i * page_size + offset)

pub record IsValid (s : Machine) : Type 0 where
  pub aligned : s.base_pointer % page_size ≡ 0
  pub fits : s.base_pointer + max_pages * page_size ≤ 2 ^ 64
  pub counted : s.used_pages ≡ sum_over weight max_pages s.allocated
  pub zeroed :
      (i offset : ℕ)
      → i < max_pages
      → offset < page_size
      → s.allocated i ≡ false
      → page_byte s i offset ≡ 0

-- The index of a page's pointer is the page's index.
pub page_index-page_pointer :
    (s : Machine) (i : ℕ)
    → i < max_pages
    → s.base_pointer + max_pages * page_size ≤ 2 ^ 64
    → vms_get_page_index s (vms_get_page_pointer s i) ≡ pos i
unfolding vms_get_page_index vms_get_page_pointer
page_index-page_pointer s i h fits = ap to_int quotient ∙ small
  where
    quotient : (s.base_pointer + i * page_size + (2 ^ 64 - s.base_pointer)) % 2 ^ 64 / page_size ≡ i
    quotient = omega (arith, h, fits)

    same : i % 2 ^ 32 ≡ i
    same = omega (arith, h)

    small : to_int i ≡ pos i
    small = ground (arith, same, h)

-- The first page from `i` on that is free, if one of the next `rounds` is.
find_free-first :
    (rounds i k : ℕ) (s : Machine)
    → find_free rounds i s ≡ some k
    → (i ≤ k)
      × (k < i + rounds)
      × (s.allocated k ≡ false)
      × ((j : ℕ) → i ≤ j → j < k → s.allocated j ≡ true)
unfolding find_free
find_free-first zero i k s h = ground arith
find_free-first (suc rounds) i k s h = elim (Bool-cases (s.allocated i)) [
  | inl used ↦
      let (le, lt, free, before) = find_free-first rounds (suc i) k s (ground (arith, used, h)) in
      (
        omega (arith, le),
        omega (arith, lt),
        free,
        λ j p q. elim (ℕ_discrete j i) [
          | yes e ↦ rw e used
          | no e ↦ before j (omega (arith, p, e)) q
        ],
      )
  | inr free ↦
      let here : i ≡ k = ground (arith, free, h) in
      (
        omega (arith, here),
        omega (arith, here),
        ap s.allocated (sym here) ∙ free,
        λ j p q. absurd (omega (arith, here, p, q)),
      )
]

find_free-full :
    (rounds i : ℕ) (s : Machine)
    → find_free rounds i s ≡ none
    → (j : ℕ) → i ≤ j
    → j < i + rounds
    → s.allocated j ≡ true
unfolding find_free
find_free-full zero i s h j le lt = absurd (omega (arith, le, lt))
find_free-full (suc rounds) i s h j le lt = elim (Bool-cases (s.allocated i)) [
  | inl used ↦ elim (ℕ_discrete j i) [
    | yes e ↦ rw e used
    | no e ↦
        find_free-full rounds (suc i) s (ground (arith, used, h)) j (omega (arith, le, e))
          (omega (arith, lt))
  ]
  | inr free ↦ absurd (ground (arith, free, h))
]

-- What a call of `vms_new_page` that gets page `i` does.
pub record Allocates (s : Machine) (i : ℕ) (t : Machine) : Type 0 where
  pub index : i < max_pages
  pub was_free : s.allocated i ≡ false
  pub first : (j : ℕ) → j < i → s.allocated j ≡ true
  pub after : t ≡ record s { allocated = update s.allocated i true; used_pages = s.used_pages + 1 }

pub vms_new_page-Allocates :
    (s : Machine)
    → ((vms_new_page s ≡ exited enomem) × ((j : ℕ) → j < max_pages → s.allocated j ≡ true))
      ⊎ ((i : ℕ) × (t : Machine) × (vms_new_page s ≡ ok (vms_get_page_pointer s i) t)
          × Allocates s i t)
unfolding vms_new_page
vms_new_page-Allocates s = elim (Option-cases (find_free max_pages 0 s)) [
  | inl e ↦ inl (rw e, λ j lt. find_free-full max_pages 0 s e j (omega arith) (omega (arith, lt)))
  | inr (i, e) ↦
      let (_, lt, free, before) = find_free-first max_pages 0 i s e in
      inr (
        i,
        _,
        rw e,
        record {
          index = omega (arith, lt);
          was_free = free;
          first = λ j p. before j (omega arith) p;
          after = refl;
        },
      )
]
