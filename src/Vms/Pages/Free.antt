-- ===== src/Vms/Pages/Free.antt =====
-- vms/src/pages.c: what vms_new_page and vms_free_page do to valid pages.
use mathlib.Core.Path.{fun_ext}
use ece344_operating_system.Common.{
  ℕ, ◌+◌, ◌-◌, ◌*◌, ◌%◌, ◌^◌, ◌≤◌, ◌<◌, ◌≡◌, ◌≢◌, refl, sym, ap, ◌∙◌, ◌⊎◌, inl, inr, Bool, true,
  false, arith, ℕ_discrete, Bool-cases, dec_lt,
}
use ece344_operating_system.Common.Family.{update, sum_over-update}
use ece344_operating_system.Vms.Machine.{
  page_size, max_pages, Machine, ok, aborted, exited, is_mapped, zero_bytes, zero_page,
}
use ece344_operating_system.Vms.Machine.Bytes.{
  zero_bytes-inside, zero_bytes-outside, zero_bytes-of_zeros, zero_page-mapped,
}
use ece344_operating_system.Vms.Pages.{
  vms_get_page_pointer, vms_get_page_index, check_page_aligned, array_index, enomem, vms_new_page,
  vms_free_page,
}
use ece344_operating_system.Vms.Pages.Valid.{
  weight, page_byte, IsValid, page_index-page_pointer, Allocates, vms_new_page-Allocates,
}

module _ {s t : Machine} {i : ℕ} (k : IsValid s) (n : Allocates s i t) where
  pub Allocates-IsValid : IsValid t
  Allocates-IsValid = rw n.after (record {
    aligned = k.aligned;
    fits = k.fits;
    counted =
        let change = sum_over-update weight max_pages s.allocated i true n.index in
        omega (arith, k.counted, change, ap weight n.was_free);
    zeroed = λ j offset p q e. k.zeroed j offset p q (elim (ℕ_discrete i j) [
      | yes same ↦ ap s.allocated (sym same) ∙ n.was_free
      | no other ↦ ground (arith, other, e)
    ]);
  })

-- The state after the page is freed.
abbrev pub freed : Machine → ℕ → Machine
freed s i = record s {
  memory = zero_bytes (s.base_pointer + i * page_size) s.memory;
  allocated = update s.allocated i false;
  used_pages = s.used_pages - 1;
}

module _ (s : Machine) (i : ℕ) (aligned : s.base_pointer % page_size ≡ 0)
    (fits : s.base_pointer + max_pages * page_size ≤ 2 ^ 64) (lt : i < max_pages) where
  page_pointer-aligned : check_page_aligned (vms_get_page_pointer s i) s ≡ ok tt s
  unfolding check_page_aligned vms_get_page_pointer
  page_pointer-aligned =
      let even : (s.base_pointer + i * page_size) % page_size ≡ 0 = omega (arith, aligned) in
      ground (arith, even)

  page_pointer-index : array_index (vms_get_page_index s (vms_get_page_pointer s i)) s ≡ ok i s
  unfolding array_index
  page_pointer-index = rw (page_index-page_pointer s i lt fits) (ground (arith, lt))

  pub page_pointer-is_mapped : is_mapped s (s.base_pointer + i * page_size) page_size ≡ true
  page_pointer-is_mapped = ground (arith, lt)

  page_pointer-zero_page :
      (held : ℕ → Bool)
      → zero_page (vms_get_page_pointer s i) (record s { allocated = held })
        ≡ ok tt (record s {
          memory = zero_bytes (s.base_pointer + i * page_size) s.memory;
          allocated = held;
        })
  unfolding vms_get_page_pointer
  page_pointer-zero_page held =
      zero_page-mapped (record s { allocated = held }) (s.base_pointer + i * page_size)
        page_pointer-is_mapped

  pub free_page-freed :
      s.allocated i ≡ true → vms_free_page (vms_get_page_pointer s i) s ≡ ok tt (freed s i)
  unfolding vms_free_page
  free_page-freed used =
      rw (page_pointer-aligned, page_pointer-index, used, page_pointer-zero_page _) refl

  -- A page that is not in use cannot be freed.
  pub free_page-aborted :
      s.allocated i ≡ false → vms_free_page (vms_get_page_pointer s i) s ≡ aborted
  unfolding vms_free_page
  free_page-aborted free = rw (page_pointer-aligned, page_pointer-index, free) refl

freed-others :
    (s : Machine) (i j offset : ℕ)
    → i ≢ j
    → offset < page_size
    → page_byte (freed s i) j offset ≡ page_byte s j offset
freed-others s i j offset other q =
    zero_bytes-outside (s.base_pointer + i * page_size) (s.base_pointer + j * page_size + offset)
      s.memory
      (elim (dec_lt i j) [
        | yes below ↦ inl (omega (arith, below))
        | no above ↦ inr (omega (arith, above, other, q))
      ])

module _ {s : Machine} (k : IsValid s) {i : ℕ} (lt : i < max_pages) where
  freed-zeroed :
      (j offset : ℕ)
      → j < max_pages
      → offset < page_size
      → (freed s i).allocated j ≡ false
      → page_byte (freed s i) j offset ≡ 0
  freed-zeroed j offset p q e = elim (ℕ_discrete i j) [
    | yes same ↦
        zero_bytes-inside (s.base_pointer + i * page_size) (s.base_pointer + j * page_size + offset)
          s.memory (omega (arith, same)) (omega (arith, same, q))
    | no other ↦
        freed-others s i j offset other q ∙ k.zeroed j offset p q (ground (arith, other, e))
  ]

  freed-IsValid : s.allocated i ≡ true → IsValid (freed s i)
  freed-IsValid used = record {
    aligned = k.aligned;
    fits = k.fits;
    counted =
        let change = sum_over-update weight max_pages s.allocated i false lt in
        omega (arith, k.counted, change, ap weight used);
    zeroed = freed-zeroed;
  }

used_one :
    (s : Machine) (i : ℕ) → IsValid s → i < max_pages → s.allocated i ≡ true → 1 ≤ s.used_pages
used_one s i k lt used =
    let change = sum_over-update weight max_pages s.allocated i false lt in
    omega (arith, k.counted, change, ap weight used)

-- From a valid state, `vms_free_page` of a page in use succeeds: the page is free and holds zeros, one
-- page less is in use, the other pages are as they were, and the state is valid. Of a free page it fails
-- its `assert`.
pub vms_free_page_lem :
    (s : Machine) (i : ℕ)
    → IsValid s
    → i < max_pages
    → ((s.allocated i ≡ true)
        × (vms_free_page (vms_get_page_pointer s i) s ≡ ok tt (freed s i))
        × ((freed s i).used_pages + 1 ≡ s.used_pages)
        × ((j offset : ℕ)
            → i ≢ j
            → offset < page_size
            → page_byte (freed s i) j offset ≡ page_byte s j offset)
        × IsValid (freed s i))
      ⊎ ((s.allocated i ≡ false) × (vms_free_page (vms_get_page_pointer s i) s ≡ aborted))
vms_free_page_lem s i k lt = elim (Bool-cases (s.allocated i)) [
  | inl used ↦ inl (
    used,
    free_page-freed s i k.aligned k.fits lt used,
    omega (arith, used_one s i k lt used),
    freed-others s i,
    freed-IsValid k lt used,
  )
  | inr free ↦ inr (free, free_page-aborted s i k.aligned k.fits lt free)
]

-- From a valid state, `vms_new_page` gives the first free page, which holds zeros, and counts it; without
-- a free page the process exits with ENOMEM. The state stays valid.
pub vms_new_page_lem :
    (s : Machine)
    → IsValid s
    → ((vms_new_page s ≡ exited enomem) × ((j : ℕ) → j < max_pages → s.allocated j ≡ true))
      ⊎ ((i : ℕ) × (t : Machine) × (vms_new_page s ≡ ok (vms_get_page_pointer s i) t)
          × Allocates s i t
          × ((offset : ℕ) → offset < page_size → page_byte t i offset ≡ 0)
          × IsValid t)
vms_new_page_lem s k = elim (vms_new_page-Allocates s) [
  | inl full ↦ inl full
  | inr (i, t, run, n) ↦ inr (
    i,
    t,
    run,
    n,
    λ offset q. rw n.after (k.zeroed i offset n.index q n.was_free),
    Allocates-IsValid k n,
  )
]

free_page-Allocates :
    (s t : Machine) (i : ℕ)
    → IsValid s
    → Allocates s i t
    → vms_free_page (vms_get_page_pointer s i) t ≡ ok tt s
unfolding vms_get_page_pointer
free_page-Allocates s t i k n =
    ap (vms_free_page (vms_get_page_pointer s i)) n.after
    ∙ free_page-freed given i k.aligned k.fits n.index (ground arith)
    ∙ ap (ok tt) back
  where
    given : Machine
    given = record s { allocated = update s.allocated i true; used_pages = s.used_pages + 1 }

    memory_back : (a : ℕ) → zero_bytes (s.base_pointer + i * page_size) s.memory a ≡ s.memory a
    memory_back =
        zero_bytes-of_zeros (s.base_pointer + i * page_size) s.memory
          (λ offset q. k.zeroed i offset n.index q n.was_free)

    allocated_back : (j : ℕ) → update (update s.allocated i true) i false j ≡ s.allocated j
    allocated_back j = elim (ℕ_discrete i j) [
      | yes e ↦ ground (arith, e, n.was_free)
      | no e ↦ ground (arith, e)
    ]

    back : freed given i ≡ s
    back = λ x. record s {
      memory = fun_ext memory_back x;
      allocated = fun_ext allocated_back x;
      used_pages = count_back x;
    }
      where
        count_back : s.used_pages + 1 - 1 ≡ s.used_pages
        count_back = omega arith

-- From a valid state, `vms_new_page` ends the process with all pages in use, or gives out a page; freeing
-- that page then takes back all that `vms_new_page` did.
pub vms_free_page-vms_new_page :
    (s : Machine)
    → IsValid s
    → ((vms_new_page s ≡ exited enomem) × ((j : ℕ) → j < max_pages → s.allocated j ≡ true))
      ⊎ ((page : ℕ) × (t : Machine) × (vms_new_page s ≡ ok page t)
          × (vms_free_page page t ≡ ok tt s))
vms_free_page-vms_new_page s k = elim (vms_new_page-Allocates s) [
  | inl full ↦ inl full
  | inr (i, t, run, n) ↦ inr (vms_get_page_pointer s i, t, run, free_page-Allocates s t i k n)
]
