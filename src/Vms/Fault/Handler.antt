-- ===== src/Vms/Fault/Handler.antt =====
-- page_fault_handler of vms/src/vms.c at an entry that is marked as shared, as a whole.
use ece344_operating_system.Common.{
  ℕ, suc, ◌+◌, ◌*◌, ◌^◌, ◌≤◌, ◌<◌, ◌≡◌, refl, ap, ◌∙◌, ◌⊎◌, inl, inr, true, false,
}
use ece344_operating_system.Vms.Machine.{page_size, max_pages, Machine, ok, exited}
use ece344_operating_system.Vms.Machine.Bytes.{IsSeparate}
use ece344_operating_system.Vms.Pte.{vms_pte_custom, vms_pte_get_ppn}
use ece344_operating_system.Vms.Pages.{vms_get_page_pointer, enomem, vms_new_page}
use ece344_operating_system.Vms.Pages.Valid.{IsValid, vms_new_page-Allocates}
use ece344_operating_system.Vms.PageTable.{vms_page_table_pte_entry, vms_ppn_to_page}
use ece344_operating_system.Vms.Mmu.Walk.{Holds}
use ece344_operating_system.Vms.Fault.{own_page, page_fault_handler}
use ece344_operating_system.Vms.Fault.Cow.{IsInTable, OwnPage, owned, own_page-owned, owned-OwnPage}
use ece344_operating_system.Vms.Fault.Own.{
  unshared, flags_written, flags_written-others, flags_written-Holds, handler-own_page,
}

own_page-full :
    (entry page i references : ℕ) (s : Machine)
    → vms_new_page s ≡ exited enomem
    → own_page entry page i (suc references) s ≡ exited enomem
unfolding own_page
own_page-full entry page i references s full = rw full refl

-- A fault at a valid entry that is marked as shared, whose page has other references: the entry gets
-- the first free page, with the bytes of the shared page; it can be written and is not marked any more;
-- the page has one reference less; and all memory but the entry and the new page is as it was. Without
-- a free page the process exits with ENOMEM.
pub page_fault_handler-copies :
    (s : Machine) (va level pt i e references : ℕ)
    → IsValid s
    → i < max_pages
    → s.base_pointer + max_pages * page_size ≤ 2 ^ 56
    → e < 2 ^ 64
    → Holds s (vms_page_table_pte_entry pt va level) e
    → vms_pte_custom e ≡ true
    → vms_ppn_to_page (vms_pte_get_ppn e) ≡ vms_get_page_pointer s i
    → IsInTable s (vms_page_table_pte_entry pt va level) i
    → s.ref_track i ≡ suc references
    → ((page_fault_handler va level pt s ≡ exited enomem)
        × ((j : ℕ) → j < max_pages → s.allocated j ≡ true))
      ⊎ ((j : ℕ) × (t : Machine) × (page_fault_handler va level pt s ≡ ok tt t)
          × (j < max_pages)
          × (s.allocated j ≡ false)
          × ((m : ℕ) → m < j → s.allocated m ≡ true)
          × OwnPage s (vms_page_table_pte_entry pt va level) e i references j t)
page_fault_handler-copies s va level pt i e references k index low fits h shared page inside more =
    elim (vms_new_page-Allocates shown) [
      | inl (full, all) ↦
          inl (runs ∙ own_page-full entry (vms_get_page_pointer s i) i references shown full, all)
      | inr (j, t, run, n) ↦ inr (
        j,
        owned s entry e i references j k index low fits h inside t n,
        runs ∙ own_page-owned s entry e i references j k index low fits h inside t n run,
        n.index,
        n.was_free,
        n.first,
        owned-OwnPage s entry e i references j k index low fits h inside t n,
      )
    ]
  where
    entry : ℕ
    entry = vms_page_table_pte_entry pt va level

    shown : Machine
    shown = record s { memory = flags_written entry e s.memory }

    runs :
        page_fault_handler va level pt s
        ≡ own_page entry (vms_get_page_pointer s i) i (suc references) shown
    runs =
        handler-own_page s va level pt i e k index fits h shared page
        ∙ ap (λ r. own_page entry (vms_get_page_pointer s i) i r shown) more

-- A fault at an entry that is marked as shared, whose page has no other reference, only makes the entry
-- one that can be written and is not marked.
pub page_fault_handler-keeps :
    (s : Machine) (va level pt i e : ℕ)
    → IsValid s
    → i < max_pages
    → e < 2 ^ 64
    → Holds s (vms_page_table_pte_entry pt va level) e
    → vms_pte_custom e ≡ true
    → vms_ppn_to_page (vms_pte_get_ppn e) ≡ vms_get_page_pointer s i
    → s.ref_track i ≡ 0
    → (t : Machine) × (page_fault_handler va level pt s ≡ ok tt t)
      × Holds t (vms_page_table_pte_entry pt va level) (unshared e)
      × ((x : ℕ)
          → IsSeparate (vms_page_table_pte_entry pt va level) 8 x 1
          → t.memory x ≡ s.memory x)
      × (t.allocated ≡ s.allocated)
      × (t.ref_track ≡ s.ref_track)
unfolding own_page
page_fault_handler-keeps s va level pt i e k index fits h shared page last =
    let entry = vms_page_table_pte_entry pt va level in
    (
      record s { memory = flags_written entry e s.memory },
      handler-own_page s va level pt i e k index fits h shared page
          ∙ ap
              (λ r.
                own_page entry (vms_get_page_pointer s i) i r
                  (record s { memory = flags_written entry e s.memory }))
              last,
      flags_written-Holds h fits,
      λ x out. flags_written-others entry e x s.memory out,
      refl,
      refl,
    )
