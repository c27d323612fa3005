-- ===== src/Vms/Fault/Own.antt =====
-- page_fault_handler of vms/src/vms.c at an entry that is marked as shared.
use ece344_operating_system.Common.{ℕ, ◌^◌, ◌<◌, ◌≡◌, refl, ◌∙◌, true, arith}
use ece344_operating_system.Common.Int.{pos}
use ece344_operating_system.Vms.Machine.{max_pages, Machine, ok, store_bytes, put_entry}
use ece344_operating_system.Vms.Machine.Bytes.{
  IsSeparate, store_bytes-outside, load_bytes-store_bytes, store-mapped,
}
use ece344_operating_system.Vms.Pte.{
  vms_pte_write_set, vms_pte_custom_clear, vms_pte_custom, vms_pte_get_ppn,
}
use ece344_operating_system.Vms.Pte.Flags.{write, custom, set_flag-Turns, clear_flag-Turns}
use ece344_operating_system.Vms.Pages.{vms_get_page_pointer, array_index}
use ece344_operating_system.Vms.Pages.Valid.{IsValid, page_index-page_pointer}
use ece344_operating_system.Vms.PageTable.{vms_page_table_pte_entry, vms_ppn_to_page}
use ece344_operating_system.Vms.Mmu.Walk.{Holds, get_entry-Holds}
use ece344_operating_system.Vms.Fault.{own_page, custom_fault, page_fault_handler}

-- A write of an entry.
pub put_entry-Holds :
    {s : Machine} {entry value : ℕ} (f : ℕ → ℕ)
    → Holds s entry value
    → put_entry entry f s ≡ ok tt (record s { memory = store_bytes 8 entry (f value) s.memory })
put_entry-Holds {s} {entry} {value} f h =
    rw (get_entry-Holds h) (store-mapped s 8 entry (f value) h.mapped)

-- The entry holds what was written.
pub Holds-put :
    {s : Machine} {entry value : ℕ} (v : ℕ)
    → Holds s entry value
    → v < 2 ^ 64
    → Holds (record s { memory = store_bytes 8 entry v s.memory }) entry v
Holds-put {s} {entry} v h fits = record {
  mapped = h.mapped;
  loads = load_bytes-store_bytes 8 entry v s.memory (omega (arith, fits));
}

-- The value of an entry that was shared, for a page that is its own: it can be written, and the mark
-- is gone.
abbrev pub unshared : ℕ → ℕ
unshared e = vms_pte_custom_clear (vms_pte_write_set e)

pub unshared-bound : (e : ℕ) → e < 2 ^ 64 → unshared e < 2 ^ 64
unshared-bound e h =
    (clear_flag-Turns custom (vms_pte_write_set e) (set_flag-Turns write e h).bound).bound

-- The memory with both flags written.
abbrev pub flags_written : (entry e : ℕ) → (ℕ → ℕ) → ℕ → ℕ
flags_written entry e m =
    store_bytes 8 entry (unshared e) (store_bytes 8 entry (vms_pte_write_set e) m)

pub flags_written-others :
    (entry e x : ℕ) (m : ℕ → ℕ) → IsSeparate entry 8 x 1 → flags_written entry e m x ≡ m x
flags_written-others entry e x m out =
    store_bytes-outside 8 entry (unshared e) x (store_bytes 8 entry (vms_pte_write_set e) m) out
    ∙ store_bytes-outside 8 entry (vms_pte_write_set e) x m out

pub flags_written-Holds :
    {s : Machine} {entry e : ℕ}
    → Holds s entry e
    → e < 2 ^ 64
    → Holds (record s { memory = flags_written entry e s.memory }) entry (unshared e)
flags_written-Holds {s} {entry} {e} h fits =
    Holds-put (unshared e) (Holds-put (vms_pte_write_set e) h (set_flag-Turns write e fits).bound)
      (unshared-bound e fits)

module _ (s : Machine) (va level pt i e : ℕ) (k : IsValid s) (index : i < max_pages)
    (fits : e < 2 ^ 64) (h : Holds s (vms_page_table_pte_entry pt va level) e)
    (shared : vms_pte_custom e ≡ true)
    (page : vms_ppn_to_page (vms_pte_get_ppn e) ≡ vms_get_page_pointer s i) where
  abbrev entry : ℕ
  entry = vms_page_table_pte_entry pt va level

  abbrev flagged : Machine
  flagged = record s { memory = flags_written entry e s.memory }

  in_array : array_index (pos i) flagged ≡ ok i flagged
  unfolding array_index
  in_array = ground (arith, index)

  custom_fault-own_page :
      custom_fault entry e s ≡ own_page entry (vms_get_page_pointer s i) i (s.ref_track i) flagged
  unfolding custom_fault
  custom_fault-own_page =
      rw
        (
          page,
          put_entry-Holds vms_pte_write_set h,
          put_entry-Holds vms_pte_custom_clear
              (Holds-put (vms_pte_write_set e) h (set_flag-Turns write e fits).bound),
          page_index-page_pointer s i index k.fits,
          in_array,
        )
        refl

  pub handler-own_page :
      page_fault_handler va level pt s
      ≡ own_page entry (vms_get_page_pointer s i) i (s.ref_track i) flagged
  unfolding page_fault_handler
  handler-own_page = rw (get_entry-Holds h, shared) custom_fault-own_page
