-- ===== src/Vms/Fault.antt =====
-- page_fault_handler of vms/src/vms.c: the write to a page that is shared until it is written.
pub mod Own
pub mod Cow
pub mod Handler
use ece344_operating_system.Common.{ℕ, zero, suc, ◌-◌, Bool, true, false, if◌then◌else◌}
use ece344_operating_system.Common.Family.{update}
use ece344_operating_system.Common.Int.{ℤ}
use ece344_operating_system.Vms.Machine.{
  Machine, ok, M, pure, ◌>>=◌, ◌>>◌, load, store, copy_page, get_entry, put_entry,
}
use ece344_operating_system.Vms.Pte.{
  vms_pte_write_set, vms_pte_custom_clear, vms_pte_custom, vms_pte_get_ppn, vms_pte_set_ppn,
}
use ece344_operating_system.Vms.Pages.{vms_get_page_index, array_index, vms_new_page}
use ece344_operating_system.Vms.PageTable.{
  vms_page_table_pte_entry, vms_ppn_to_page, vms_page_to_ppn,
}

abbrev pub page_index : ℕ → M ℤ
page_index page s = ok (vms_get_page_index s page) s

-- ref_track[i]
abbrev pub get_references : ℕ → M ℕ
get_references i s = ok (s.ref_track i) s

abbrev pub put_references : ℕ → ℕ → M (Unit {0})
put_references i n s = ok tt (record s { ref_track = update s.ref_track i n })

-- The entry gets a page of its own, with the same bytes.
unfoldable pub own_page : (pte_entry current_page i references : ℕ) → M (Unit {0})
unfolding load store
own_page pte_entry current_page i zero = pure tt
own_page pte_entry current_page i (suc references) = do
  new_page ← vms_new_page
  copy_page new_page current_page
  ppn ← vms_page_to_ppn new_page
  put_entry pte_entry (λ e. vms_pte_set_ppn e ppn)
  put_references i references

unfoldable pub custom_fault : (pte_entry entry : ℕ) → M (Unit {0})
unfolding load store own_page
custom_fault pte_entry entry = do
  let current_page = vms_ppn_to_page (vms_pte_get_ppn entry)
  page_idx ← page_index current_page
  put_entry pte_entry vms_pte_write_set
  put_entry pte_entry vms_pte_custom_clear
  i ← array_index page_idx
  references ← get_references i
  own_page pte_entry current_page i references

unfoldable pub page_fault_handler : (virtual_address level page_table : ℕ) → M (Unit {0})
unfolding load custom_fault
page_fault_handler virtual_address level page_table = do
  let pte_entry = vms_page_table_pte_entry page_table virtual_address level
  entry ← get_entry pte_entry
  if vms_pte_custom entry then custom_fault pte_entry entry else pure tt
