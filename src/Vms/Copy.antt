-- ===== src/Vms/Copy.antt =====
-- copy of vms/src/vms.c, with its two modes.
pub mod Shares
pub mod Table
pub mod Entry
pub mod Loop
use ece344_operating_system.Common.{ℕ, zero, suc, not, ◌&&◌, if◌then◌else◌}
use ece344_operating_system.Vms.Machine.{
  M, pure, ◌>>=◌, ◌>>◌, load, store, copy_page, get_entry, put_entry,
}
use ece344_operating_system.Vms.Pte.{
  vms_pte_valid, vms_pte_write, vms_pte_write_clear, vms_pte_custom, vms_pte_custom_set,
  vms_pte_get_ppn, vms_pte_set_ppn,
}
use ece344_operating_system.Vms.Pages.{array_index, vms_new_page}
use ece344_operating_system.Vms.PageTable.{
  vms_page_table_pte_entry_from_index, vms_ppn_to_page, vms_page_to_ppn,
}
use ece344_operating_system.Vms.Fault.{page_index, get_references, put_references}
use ece344_operating_system.Vms.Mmu.{vms_get_root_page_table}

pub data Mode : Type 0 where
  default cow : Mode

abbrev pub num_pte_entries : ℕ
num_pte_entries = 512

-- for (int i = ...; i < NUM_PTE_ENTRIES; ++ i), with the rounds that are left.
unfoldable pub for_each : (rounds i : ℕ) → (ℕ → M (Unit {0})) → M (Unit {0})
for_each zero i body = pure tt
for_each (suc rounds) i body = do body i; for_each rounds (suc i) body

-- *forked = *original, and its page number is the one of `page`.
unfoldable pub copy_entry : (original forked page : ℕ) → M (Unit {0})
unfolding load store
copy_entry original forked page = do
  e ← get_entry original
  store 8 forked e
  ppn ← vms_page_to_ppn page
  put_entry forked (λ f. vms_pte_set_ppn f ppn)

-- A page of its own for the copy, with the same bytes.
unfoldable pub copy_default : (original forked : ℕ) → M (Unit {0})
unfolding load copy_entry
copy_default original forked = do
  e ← get_entry original
  p0_forked ← vms_new_page
  copy_page p0_forked (vms_ppn_to_page (vms_pte_get_ppn e))
  copy_entry original forked p0_forked

-- The page is shared; one that could be written is marked in both entries.
unfoldable pub share_page : (original forked : ℕ) → M (Unit {0})
unfolding load store
share_page original forked = do
  put_entry forked vms_pte_write_clear
  put_entry forked vms_pte_custom_set
  put_entry original vms_pte_write_clear
  put_entry original vms_pte_custom_set
  e ← get_entry original
  page_idx ← page_index (vms_ppn_to_page (vms_pte_get_ppn e))
  i ← array_index page_idx
  references ← get_references i
  put_references i (suc references)
  store 8 forked e

unfoldable pub copy_cow : (original forked : ℕ) → M (Unit {0})
unfolding load store share_page
copy_cow original forked = do
  e ← get_entry original
  if not (vms_pte_write e) && not (vms_pte_custom e)
      then store 8 forked e
      else share_page original forked

unfoldable pub copy_l0 : Mode → (l0_original l0_forked k : ℕ) → M (Unit {0})
unfolding load copy_default copy_cow
copy_l0 mode l0_original l0_forked k = do
  let original = vms_page_table_pte_entry_from_index l0_original k
  let forked = vms_page_table_pte_entry_from_index l0_forked k
  e ← get_entry original
  if not (vms_pte_valid e)
      then pure tt
      else elim mode [ default ↦ copy_default original forked | cow ↦ copy_cow original forked ]

-- A table of the lower levels: a new page, filled by the loop over `body`, and the entry for it.
unfoldable pub copy_table :
    (body : (table_original table_forked i : ℕ) → M (Unit {0})) (original_table forked_table i : ℕ)
    → M (Unit {0})
unfolding load copy_entry for_each
copy_table body original_table forked_table i = do
  let original = vms_page_table_pte_entry_from_index original_table i
  let forked = vms_page_table_pte_entry_from_index forked_table i
  e ← get_entry original
  if not (vms_pte_valid e) then pure tt else (do
    table_forked ← vms_new_page
    for_each num_pte_entries 0 (body (vms_ppn_to_page (vms_pte_get_ppn e)) table_forked)
    copy_entry original forked table_forked)

unfoldable pub copy : Mode → M ℕ
unfolding copy_table copy_l0 for_each
copy mode s =
    (do
      new_l2 ← vms_new_page
      for_each num_pte_entries 0
          (copy_table (copy_table (copy_l0 mode)) (vms_get_root_page_table s) new_l2)
      pure new_l2)
      s

unfoldable pub vms_fork_copy : M ℕ
unfolding copy
vms_fork_copy = copy default

unfoldable pub vms_fork_copy_on_write : M ℕ
unfolding copy
vms_fork_copy_on_write = copy cow
