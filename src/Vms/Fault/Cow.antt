-- ===== src/Vms/Fault/Cow.antt =====
-- page_fault_handler of vms/src/vms.c: a page that is shared is copied for the entry that is written.
use ece344_operating_system.Common.{
  ℕ, suc, ◌+◌, ◌*◌, ◌/◌, ◌^◌, ◌≤◌, ◌<◌, ◌≡◌, ◌≢◌, refl, ap, ◌∙◌, inl, inr, true, false, arith,
  dec_lt, if◌then◌else◌,
}
use ece344_operating_system.Common.Family.{update}
use ece344_operating_system.Vms.Machine.{
  page_size, max_pages, Machine, ok, is_mapped, store_bytes, copy_bytes,
}
use ece344_operating_system.Vms.Machine.Bytes.{
  IsSeparate, copy_bytes-inside, copy_bytes-outside, store_bytes-outside, load_bytes-same,
  copy_page-mapped,
}
use ece344_operating_system.Vms.Pte.{vms_pte_write_set, vms_pte_get_ppn, vms_pte_set_ppn}
use ece344_operating_system.Vms.Pte.Flags.{
  Flag, write, custom, same, has_flag, set_flag-Turns, clear_flag-Turns, set_ppn-reads,
}
use ece344_operating_system.Vms.Pages.{vms_get_page_pointer, vms_new_page}
use ece344_operating_system.Vms.Pages.Valid.{IsValid, Allocates}
use ece344_operating_system.Vms.Pages.Free.{page_pointer-is_mapped}
use ece344_operating_system.Vms.PageTable.{vms_ppn_to_page}
use ece344_operating_system.Vms.PageTable.Fields.{page_to_ppn-number, set_ppn-page}
use ece344_operating_system.Vms.Mmu.Walk.{Holds}
use ece344_operating_system.Vms.Fault.{own_page}
use ece344_operating_system.Vms.Fault.Own.{
  put_entry-Holds, Holds-put, unshared, unshared-bound, flags_written, flags_written-others,
  flags_written-Holds,
}

abbrev pub page_start : Machine → ℕ → ℕ
page_start s i = s.base_pointer + i * page_size

-- The entry lies in a page that is in use, and is not page `i`.
pub record IsInTable (s : Machine) (entry i : ℕ) : Type 0 where
  pub table : ℕ
  pub used : s.allocated table ≡ true
  pub other : table ≢ i
  pub from : page_start s table ≤ entry
  pub upto : entry + 8 ≤ page_start s table + page_size

-- What the handler leaves: the entry leads to page `j`, which is new, can be written, and holds the
-- bytes of page `i`.
pub record OwnPage (s : Machine) (entry e i references j : ℕ) (t : Machine) : Type 0 where
  pub value : ℕ
  pub holds : Holds t entry value
  pub leads : vms_ppn_to_page (vms_pte_get_ppn value) ≡ page_start s j
  pub flags :
      (f : Flag)
      → has_flag f value
        ≡ (if same custom f then false else (if same write f then true else has_flag f e))
  pub bytes :
      (offset : ℕ)
      → offset < page_size
      → t.memory (page_start s j + offset) ≡ s.memory (page_start s i + offset)
  pub others :
      (x : ℕ)
      → IsSeparate entry 8 x 1
      → IsSeparate (page_start s j) page_size x 1
      → t.memory x ≡ s.memory x
  pub base_pointer : t.base_pointer ≡ s.base_pointer
  pub allocated : t.allocated ≡ update s.allocated j true
  pub used_pages : t.used_pages ≡ s.used_pages + 1
  pub ref_track : t.ref_track ≡ update s.ref_track i references

-- An entry is apart from the pages other than the one it lies in.
pub page-IsSeparate :
    {s : Machine} {entry i : ℕ} (w : IsInTable s entry i) (j : ℕ)
    → w.table ≢ j
    → IsSeparate entry 8 (page_start s j) page_size
page-IsSeparate {s} {entry} w j other = elim (dec_lt w.table j) [
  | yes below ↦ inl (omega (arith, w.upto, below))
  | no above ↦ inr (omega (arith, w.from, above, other))
]

module _ (s : Machine) (entry e i references j : ℕ) (k : IsValid s) (index : i < max_pages)
    (low : s.base_pointer + max_pages * page_size ≤ 2 ^ 56) (fits : e < 2 ^ 64)
    (h : Holds s entry e) (inside : IsInTable s entry i) where
  abbrev pub flagged : Machine
  flagged = record s { memory = flags_written entry e s.memory }

  module _ (t : Machine) (n : Allocates flagged j t) where
    new-IsSeparate : IsSeparate entry 8 (page_start s j) page_size
    new-IsSeparate =
        page-IsSeparate inside j (λ same. ground (arith, same, inside.used, n.was_free))

    -- The states after `memcpy`, and after the last write of the entry.
    abbrev pub copied : Machine
    copied = record flagged {
      memory = copy_bytes (page_start s j) (page_start s i) flagged.memory;
      allocated = update s.allocated j true;
      used_pages = s.used_pages + 1;
    }

    abbrev pub owned : Machine
    owned = record copied {
      memory =
          store_bytes 8 entry (vms_pte_set_ppn (unshared e) (page_start s j / 2 ^ 12))
            copied.memory;
      ref_track = update s.ref_track i references;
    }

    flagged-Holds : Holds flagged entry (unshared e)
    flagged-Holds = flags_written-Holds h fits

    copied-Holds : Holds copied entry (unshared e)
    copied-Holds = record {
      mapped = h.mapped;
      loads =
          load_bytes-same 8 entry copied.memory flagged.memory (λ x p q.
            copy_bytes-outside (page_start s j) (page_start s i) x flagged.memory
              (ground (arith, new-IsSeparate, p, q)))
          ∙ flagged-Holds.loads;
    }

    flagged_page : (x : ℕ) → x < max_pages → is_mapped flagged (page_start s x) page_size ≡ true
    flagged_page x lt = page_pointer-is_mapped flagged x k.aligned k.fits lt

    abbrev given : Machine
    given = record flagged { allocated = update s.allocated j true; used_pages = s.used_pages + 1 }

    pub own_page-owned :
        vms_new_page flagged ≡ ok (vms_get_page_pointer flagged j) t
        → own_page entry (vms_get_page_pointer s i) i (suc references) flagged ≡ ok tt owned
    unfolding own_page vms_get_page_pointer
    own_page-owned run =
        rw
          (
            run,
            n.after,
            copy_page-mapped given (page_start s j) (page_start s i) (flagged_page j n.index)
                (flagged_page i index),
            page_to_ppn-number (page_start s j) copied (omega (arith, k.aligned))
                (omega (arith, low, n.index)),
            put_entry-Holds (λ f. vms_pte_set_ppn f (page_start s j / 2 ^ 12)) copied-Holds,
          )
          refl

    abbrev final : ℕ
    final = vms_pte_set_ppn (unshared e) (page_start s j / 2 ^ 12)

    final-flags :
        (f : Flag)
        → has_flag f final
          ≡ (if same custom f then false else (if same write f then true else has_flag f e))
    final-flags f =
        let raised = set_flag-Turns write e fits in
        (set_ppn-reads (unshared e) (page_start s j / 2 ^ 12) (unshared-bound e fits)).1 f
        ∙ (clear_flag-Turns custom (vms_pte_write_set e) raised.bound).flags f
        ∙ ap (λ b. if same custom f then false else b) (raised.flags f)

    flagged-others : (x : ℕ) → IsSeparate entry 8 x 1 → flagged.memory x ≡ s.memory x
    flagged-others x out = flags_written-others entry e x s.memory out

    pub owned-OwnPage : OwnPage s entry e i references j owned
    owned-OwnPage = record {
      value = final;
      holds = record {
        mapped = h.mapped;
        loads =
            (Holds-put final copied-Holds
              (set_ppn-reads (unshared e) (page_start s j / 2 ^ 12)
                (unshared-bound e fits)).2).loads;
      };
      leads =
          set_ppn-page (page_start s j) (unshared e) (omega (arith, k.aligned))
            (omega (arith, low, n.index)) (unshared-bound e fits);
      flags = final-flags;
      bytes = λ offset q.
          store_bytes-outside 8 entry final (page_start s j + offset) copied.memory
            (ground (arith, new-IsSeparate, q))
          ∙ copy_bytes-inside (page_start s j) (page_start s i) offset flagged.memory q
          ∙ flagged-others (page_start s i + offset) (
              let apart_old = page-IsSeparate inside i inside.other in
              ground (arith, apart_old, q));
      others = λ x out far.
          store_bytes-outside 8 entry final x copied.memory out
          ∙ copy_bytes-outside (page_start s j) (page_start s i) x flagged.memory far
          ∙ flagged-others x out;
      base_pointer = refl;
      allocated = refl;
      used_pages = refl;
      ref_track = refl;
    }
