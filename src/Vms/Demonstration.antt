-- ===== src/Vms/Demonstration.antt =====
-- main of vms/src/main.c: one page is mapped, written and read.
use ece344_operating_system.Common.{ℕ, Option, List, [], ◌∷◌}
use ece344_operating_system.Vms.Machine.{M, pure, ◌>>=◌, ◌>>◌, load, store, put_entry}
use ece344_operating_system.Vms.Pte.{
  vms_pte_valid_set, vms_pte_read_set, vms_pte_write_set, vms_pte_set_ppn,
}
use ece344_operating_system.Vms.Pages.{vms_new_page}
use ece344_operating_system.Vms.PageTable.{vms_page_table_pte_entry, vms_page_to_ppn}
use ece344_operating_system.Vms.Mmu.{vms_set_root_page_table, vms_read, vms_write}

-- An entry gets the number of a page, and is valid.
unfoldable pub link_entry : (entry page : ℕ) → M (Unit {0})
unfolding load store
link_entry entry page = do
  ppn ← vms_page_to_ppn page
  put_entry entry (λ e. vms_pte_set_ppn e ppn)
  put_entry entry vms_pte_valid_set

-- After vms_init, with the values that are printed.
unfoldable pub main : M (List (Option ℕ))
unfolding link_entry load store
main = do
  l2 ← vms_new_page
  l1 ← vms_new_page
  l0 ← vms_new_page
  p0 ← vms_new_page
  let virtual_address : ℕ = 0xABC123
  link_entry (vms_page_table_pte_entry l2 virtual_address 2) l1
  link_entry (vms_page_table_pte_entry l1 virtual_address 1) l0
  let l0_entry = vms_page_table_pte_entry l0 virtual_address 0
  link_entry l0_entry p0
  put_entry l0_entry vms_pte_read_set
  put_entry l0_entry vms_pte_write_set
  vms_set_root_page_table l2
  _ ← vms_write virtual_address 1
  first ← vms_read virtual_address
  _ ← vms_write virtual_address 2
  second ← vms_read virtual_address
  pure (first ∷ second ∷ [])
