-- ===== src/Vms/Mmu.antt =====
-- vms/src/mmu.c: the walk of the page tables, and reads and writes at virtual addresses.
pub mod Ends
pub mod Walk
pub mod Shared
use Prim.Native.Nat.{bit_and, bit_or}
use ece344_operating_system.Common.{
  ℕ, zero, suc, ◌+◌, ◌*◌, ◌-◌, Bool, true, false, not, ◌&&◌, ◌||◌, Option, none, some, ◌==◌,
  if◌then◌else◌,
}
use ece344_operating_system.Vms.Word.{bit_not}
use ece344_operating_system.Vms.Machine.{
  Machine, ok, exited, M, pure, ◌>>=◌, ◌>>◌, load, store, get_entry,
}
use ece344_operating_system.Vms.Pte.{vms_pte_valid, vms_pte_read, vms_pte_write, vms_pte_get_ppn}
use ece344_operating_system.Vms.Pages.{check_page_aligned}
use ece344_operating_system.Vms.PageTable.{vms_page_table_pte_entry, vms_ppn_to_page}
use ece344_operating_system.Vms.Fault.{page_fault_handler}

abbrev pub mmu_levels : ℕ
mmu_levels = 3

abbrev pub efault : ℕ
efault = 14

unfoldable pub should_generate_fault : (level entry : ℕ) → Bool
should_generate_fault level entry =
    if not (vms_pte_valid entry)
    then true
    else (if not (level == 0) && (vms_pte_read entry || vms_pte_write entry)
        then true
        else ((level == 0) && not (vms_pte_read entry) && not (vms_pte_write entry)))

unfoldable pub vms_get_root_page_table : Machine → ℕ
vms_get_root_page_table s = s.root_page_table

unfoldable pub vms_set_root_page_table : ℕ → M (Unit {0})
vms_set_root_page_table page_table = do
  check_page_aligned page_table
  λ s. ok tt (record s { root_page_table = page_table })

-- print_fatal_page_fault, which reads the entry, and `exit (EFAULT)`.
unfoldable pub fatal_page_fault : {A : Type 0} (virtual_address level page_table : ℕ) → M A
unfolding load
fatal_page_fault virtual_address level page_table = do
  _ ← get_entry (vms_page_table_pte_entry page_table virtual_address level)
  λ _. exited efault

-- A first fault at a level goes to the handler, and the level is tried again; the second is fatal.
unfoldable pub on_fault :
    (again : M (Option ℕ)) (virtual_address level page_table : ℕ) (faulted : Bool) → M (Option ℕ)
unfolding page_fault_handler fatal_page_fault
on_fault again virtual_address level page_table false =
    page_fault_handler virtual_address level page_table >> again
on_fault again virtual_address level page_table true =
    fatal_page_fault virtual_address level page_table

-- An entry that is good leads to the table of the level below, or is the result.
unfoldable pub on_entry :
    (down : (lower page_table : ℕ) → M (Option ℕ)) (level entry e : ℕ) → M (Option ℕ)
on_entry down zero entry e = pure (some entry)
on_entry down (suc lower) entry e = down lower (vms_ppn_to_page (vms_pte_get_ppn e))

-- The loop of `mmu`, with the rounds that are left. `none` is a loop that goes on.
unfoldable pub mmu_loop :
    (rounds virtual_address level page_table : ℕ) (faulted : Bool) → M (Option ℕ)
unfolding load on_fault on_entry should_generate_fault
mmu_loop zero virtual_address level page_table faulted = pure none
mmu_loop (suc rounds) virtual_address level page_table faulted = do
  let entry = vms_page_table_pte_entry page_table virtual_address level
  e ← get_entry entry
  elim (should_generate_fault level e) [
    | true ↦
        on_fault (mmu_loop rounds virtual_address level page_table true) virtual_address level
          page_table faulted
    | false ↦
        on_entry (λ lower table. mmu_loop rounds virtual_address lower table false) level entry e
  ]

-- Each level takes two rounds at most.
unfoldable pub mmu : ℕ → M (Option ℕ)
unfolding mmu_loop
mmu virtual_address s =
    mmu_loop (2 * mmu_levels) virtual_address (mmu_levels - 1) s.root_page_table false s

unfoldable pub translate_address : (virtual_address entry : ℕ) → ℕ
translate_address virtual_address entry =
    let physical_address = vms_ppn_to_page (vms_pte_get_ppn entry) in
    bit_or physical_address (bit_and virtual_address 0xFFF)

unfoldable pub get_base_page : ℕ → ℕ
get_base_page entry = bit_and entry (bit_not 0xFFF)

-- The test of the flag that an access needs, with the second chance that the handler gives.
unfoldable pub require : (ℕ → Bool) → (virtual_address entry : ℕ) → M (Unit {0})
unfolding load get_base_page page_fault_handler fatal_page_fault
require flag virtual_address entry = do
  e ← get_entry entry
  if flag e then pure tt else (do
    let l0 = get_base_page entry
    page_fault_handler virtual_address 0 l0
    again ← get_entry entry
    if flag again then pure tt else fatal_page_fault virtual_address 0 l0)

-- The value is the 32 bits of an int.
unfoldable pub write_at : (virtual_address value : ℕ) → Option ℕ → M (Option (Unit {0}))
unfolding load store require translate_address
write_at virtual_address value none = pure none
write_at virtual_address value (some entry) = do
  require vms_pte_write virtual_address entry
  e ← get_entry entry
  store 4 (translate_address virtual_address e) value
  pure (some tt)

unfoldable pub vms_write : (virtual_address value : ℕ) → M (Option (Unit {0}))
unfolding mmu write_at
vms_write virtual_address value = mmu virtual_address >>= write_at virtual_address value

unfoldable pub read_at : (virtual_address : ℕ) → Option ℕ → M (Option ℕ)
unfolding load require translate_address
read_at virtual_address none = pure none
read_at virtual_address (some entry) = do
  require vms_pte_read virtual_address entry
  e ← get_entry entry
  value ← load 4 (translate_address virtual_address e)
  pure (some value)

unfoldable pub vms_read : ℕ → M (Option ℕ)
unfolding mmu read_at
vms_read virtual_address = mmu virtual_address >>= read_at virtual_address
