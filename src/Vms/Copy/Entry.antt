-- ===== src/Vms/Copy/Entry.antt =====
-- copy_l0 of the loop of copy in vms/src/vms.c, at one entry, in the mode that shares pages.
use ece344_operating_system.Common.{
  ℕ, suc, ◌+◌, ◌*◌, ◌^◌, ◌<◌, ◌≤◌, ◌≡◌, ◌≢◌, refl, sym, ap, ◌⊎◌, inl, inr, Bool, true, false, ◌&&◌,
  ◌||◌, ◌==◌, arith, if◌then◌else◌, Bool-cases,
}
use native.Mathlib.Decide.{ℕ_discrete}
use ece344_operating_system.Common.Family.{update}
use ece344_operating_system.Vms.Machine.{page_size, max_pages, Machine, ok}
use ece344_operating_system.Vms.Machine.Bytes.{IsSeparate}
use ece344_operating_system.Vms.Pte.{vms_pte_valid, vms_pte_write, vms_pte_custom, vms_pte_get_ppn}
use ece344_operating_system.Vms.Pages.{vms_get_page_pointer}
use ece344_operating_system.Vms.PageTable.{vms_ppn_to_page, vms_page_table_pte_entry_from_index}
use ece344_operating_system.Vms.Mmu.Walk.{Holds, get_entry-Holds}
use ece344_operating_system.Vms.Copy.{cow, copy_l0, copy_cow}
use ece344_operating_system.Vms.Copy.Shares.{
  as_shared, as_shared-ppn, as_shared-locked, as_shared-marked, Shares, copy_cow-Shares,
  copy_cow-locked,
}
use ece344_operating_system.Vms.Copy.Table.{slot, entry_of, IsReady, Step}

-- One page has one pointer.
pointer-same :
    (s : Machine) (i j : ℕ) → (vms_get_page_pointer s i == vms_get_page_pointer s j) ≡ (i == j)
unfolding vms_get_page_pointer
pointer-same s i j = ground arith

-- A count that may be raised by one at `p`.
update-count :
    (f : ℕ → ℕ) (p j : ℕ) (may : Bool)
    → update f p (if may then suc (f p) else f p) j ≡ f j + (if may && (p == j) then 1 else 0)
update-count f p j may = elim (ℕ_discrete p j) [
  | yes same ↦ by_value may (ap f same) same
  | no other ↦ beside may other
]
  where
    by_value :
        (b : Bool)
        → f p ≡ f j
        → p ≡ j
        → update f p (if b then suc (f p) else f p) j ≡ f j + (if b && (p == j) then 1 else 0)
    by_value true v same = ground (arith, v, same)
    by_value false v same = ground (arith, v, same)

    beside :
        (b : Bool)
        → p ≢ j
        → update f p (if b then suc (f p) else f p) j ≡ f j + (if b && (p == j) then 1 else 0)
    beside true other = ground (arith, other)
    beside false other = ground (arith, other)

may_share : (w c : Bool) → (w ≡ true) ⊎ (c ≡ true) → w || c ≡ true
may_share true c h = refl
may_share false true h = refl
may_share false false (inl h) = sym (sym h)
may_share false false (inr h) = sym (sym h)

module _ (s : Machine) (original forked i : ℕ)
    (space : s.base_pointer + max_pages * page_size ≤ 2 ^ 64)
    (apart : IsSeparate original page_size forked page_size) (inside : i < 512)
    (ready : IsReady s original forked i) where
  abbrev e : ℕ
  e = entry_of original i s

  original_can_load : Holds s (slot original i) e
  original_can_load = record { mapped = ready.original_mapped; loads = refl }

  forked_can_load : Holds s (slot forked i) (entry_of forked i s)
  forked_can_load = record { mapped = ready.forked_mapped; loads = refl }

  apart_slots : IsSeparate (slot original i) 8 (slot forked i) 8
  apart_slots = ground (arith, apart, inside)

  Step-invalid : vms_pte_valid e ≡ false → Step s original forked i s
  Step-invalid no_valid = record {
    entry = record {
      original_entry = rw no_valid refl;
      forked_entry = rw no_valid refl;
      same_page = refl;
      locked = λ valid. ground (arith, no_valid, valid);
      marked = rw no_valid (λ shared. ground (arith, shared));
    };
    counted = λ j. rw no_valid (omega arith);
    others = λ x p q. refl;
    allocated = refl;
    same_base = refl;
    same_used = refl;
    same_root = refl;
  }

  module _ (valid : vms_pte_valid e ≡ true) (p : ℕ) (index : p < max_pages)
      (page : vms_ppn_to_page (vms_pte_get_ppn e) ≡ vms_get_page_pointer s p) where
    Shares-Step :
        (may : Bool)
        → vms_pte_write e || vms_pte_custom e ≡ may
        → (t : Machine)
        → Shares s
            (slot original i)
            (slot forked i)
            p
            (if may then as_shared e else e)
            (if may then suc (s.ref_track p) else s.ref_track p)
            t
        → Step s original forked i t
    Shares-Step may is_may t h = record {
      entry = record {
        original_entry = rw (valid, is_may) h.original_holds.loads;
        forked_entry = rw (valid, is_may) h.forked_holds.loads;
        same_page = rw h.original_holds.loads (page_kept may);
        locked = λ v. rw h.original_holds.loads (written may is_may);
        marked = rw (valid, is_may, h.original_holds.loads) (mark may);
      };
      counted = λ j.
          rw (valid, is_may, page, pointer-same s p j, h.counted j)
            (update-count s.ref_track p j may);
      others = h.others;
      allocated = h.allocated;
      same_base = h.same_base;
      same_used = h.same_used;
      same_root = h.same_root;
    }
      where
        page_kept : (b : Bool) → vms_pte_get_ppn (if b then as_shared e else e) ≡ vms_pte_get_ppn e
        page_kept true = as_shared-ppn e ready.fits
        page_kept false = refl

        written :
            (b : Bool)
            → vms_pte_write e || vms_pte_custom e ≡ b
            → vms_pte_write (if b then as_shared e else e) ≡ false
        written true is = as_shared-locked e ready.fits
        written false is = ground (arith, is)

        mark : (b : Bool) → b ≡ true → vms_pte_custom (if b then as_shared e else e) ≡ true
        mark true is = as_shared-marked e ready.fits
        mark false is = ground (arith, is)

    copy_cow-Step :
        (t : Machine) × (copy_cow (slot original i) (slot forked i) s ≡ ok tt t)
        × Step s original forked i t
    copy_cow-Step = elim (Bool-cases (vms_pte_write e)) [
      | inl w ↦ shared (inl w)
      | inr w ↦ elim (Bool-cases (vms_pte_custom e)) [
        | inl c ↦ shared (inr c)
        | inr c ↦
            let (t, returns, h) =
              copy_cow-locked s (slot original i) (slot forked i) p e (entry_of forked i s) space
                index ready.fits ready.fits_forked original_can_load forked_can_load apart_slots
                page w c in
            (t, returns, Shares-Step false (rw (w, c) refl) t h)
      ]
    ]
      where
        shared :
            (vms_pte_write e ≡ true) ⊎ (vms_pte_custom e ≡ true)
            → (t : Machine) × (copy_cow (slot original i) (slot forked i) s ≡ ok tt t)
              × Step s original forked i t
        shared may =
            let (t, returns, h, locked, marked) =
              copy_cow-Shares s (slot original i) (slot forked i) p e (entry_of forked i s) space
                index ready.fits ready.fits_forked original_can_load forked_can_load apart_slots
                page may in
            (t, returns, Shares-Step true (may_share (vms_pte_write e) (vms_pte_custom e) may) t h)

  pub copy_l0-Step :
      (t : Machine) × (copy_l0 cow original forked i s ≡ ok tt t) × Step s original forked i t
  unfolding copy_l0 vms_page_table_pte_entry_from_index
  copy_l0-Step = elim (Bool-cases (vms_pte_valid e)) [
    | inl valid ↦
        let (p, index, page) = ready.page valid in
        let (t, returns, step) = copy_cow-Step valid p index page in
        (t, rw (get_entry-Holds original_can_load, valid) returns, step)
    | inr no_valid ↦
        (s, rw (get_entry-Holds original_can_load, no_valid) refl, Step-invalid no_valid)
  ]
