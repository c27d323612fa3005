-- ===== src/Vms/Copy/Table.antt =====
-- A table of level 0 that copy of vms/src/vms.c copies, in the mode that shares pages, and what it leaves.
use ece344_operating_system.Common.{
  ℕ, zero, suc, ◌+◌, ◌*◌, ◌^◌, ◌<◌, ◌≡◌, Bool, true, false, ◌&&◌, ◌||◌, ◌==◌, if◌then◌else◌,
}
use ece344_operating_system.Vms.Machine.{max_pages, Machine, load_bytes, is_mapped}
use ece344_operating_system.Vms.Machine.Bytes.{IsSeparate}
use ece344_operating_system.Vms.Pte.{vms_pte_valid, vms_pte_write, vms_pte_custom, vms_pte_get_ppn}
use ece344_operating_system.Vms.Pages.{vms_get_page_pointer}
use ece344_operating_system.Vms.PageTable.{vms_ppn_to_page}
use ece344_operating_system.Vms.Copy.Shares.{as_shared}

-- The entry with this index, in a table.
abbrev pub slot : (table k : ℕ) → ℕ
slot table k = table + k * 8

abbrev pub entry_of : (table k : ℕ) → Machine → ℕ
entry_of table k s = load_bytes 8 (slot table k) s.memory

-- Whether the copy shares the page of an entry.
abbrev pub is_shared : ℕ → Bool
is_shared e = vms_pte_valid e && (vms_pte_write e || vms_pte_custom e)

-- The entry, as the copy leaves it in the original.
abbrev pub after_copy : ℕ → ℕ
after_copy e = if is_shared e then as_shared e else e

-- The references that the copy of one entry adds to page `j`, and those of `n` entries from `i` on.
abbrev pub reference : Machine → (e j : ℕ) → ℕ
reference s e j =
    if is_shared e && (vms_ppn_to_page (vms_pte_get_ppn e) == vms_get_page_pointer s j)
    then 1
    else 0

abbrev pub references : (n i table : ℕ) → Machine → ℕ → ℕ
references zero i table s j = 0
references (suc n) i table s j = reference s (entry_of table i s) j + references n (suc i) table s j

-- An entry of two tables that can be copied: both are in the mapping, and one that is valid leads to a
-- page of it.
pub record IsReady (s : Machine) (original forked k : ℕ) : Type 0 where
  pub original_mapped : is_mapped s (slot original k) 8 ≡ true
  pub forked_mapped : is_mapped s (slot forked k) 8 ≡ true
  pub fits : entry_of original k s < 2 ^ 64
  pub fits_forked : entry_of forked k s < 2 ^ 64
  pub page :
      vms_pte_valid (entry_of original k s) ≡ true
      → (i : ℕ) × (i < max_pages)
        × (vms_ppn_to_page (vms_pte_get_ppn (entry_of original k s)) ≡ vms_get_page_pointer s i)

-- An entry that was copied. One that is not valid leaves both tables alone.
pub record IsCopied (s : Machine) (original forked k : ℕ) (t : Machine) : Type 0 where
  pub original_entry : entry_of original k t ≡ after_copy (entry_of original k s)
  pub forked_entry : entry_of forked k t ≡ (
      if vms_pte_valid (entry_of original k s)
      then after_copy (entry_of original k s)
      else entry_of forked k s)
  pub same_page : vms_pte_get_ppn (entry_of original k t) ≡ vms_pte_get_ppn (entry_of original k s)
  pub locked :
      vms_pte_valid (entry_of original k s) ≡ true → vms_pte_write (entry_of original k t) ≡ false
  pub marked :
      is_shared (entry_of original k s) ≡ true → vms_pte_custom (entry_of original k t) ≡ true

-- What the copy of entry `i` leaves.
pub record Step (s : Machine) (original forked i : ℕ) (t : Machine) : Type 0 where
  pub entry : IsCopied s original forked i t
  pub counted : (j : ℕ) → t.ref_track j ≡ s.ref_track j + reference s (entry_of original i s) j
  pub others :
      (x : ℕ)
      → IsSeparate (slot original i) 8 x 1
      → IsSeparate (slot forked i) 8 x 1
      → t.memory x ≡ s.memory x
  pub allocated : t.allocated ≡ s.allocated
  pub same_base : t.base_pointer ≡ s.base_pointer
  pub same_used : t.used_pages ≡ s.used_pages
  pub same_root : t.root_page_table ≡ s.root_page_table
