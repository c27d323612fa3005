-- ===== src/Vms/Tests.antt =====
-- The pages and tables of vms/src at concrete machines.
mod Sharing
mod Copied
use ece344_operating_system.Common.{
  List, [], ◌∷◌, Option, ℕ, ◌+◌, ◌*◌, ◌%◌, ◌^◌, ◌≤◌, ◌<◌, ◌≡◌, ◌≢◌, refl, ◌∙◌, ◌⊎◌, inl, true,
  false, none, some, ltb, ◌==◌, arith, if◌then◌else◌,
}
use ece344_operating_system.Common.Family.{update, sum_over, sum_over-zero}
use ece344_operating_system.Vms.Machine.{
  Outcome, fault, exited, aborted, page_size, max_pages, Machine, ok, load_bytes, store_bytes,
}
use ece344_operating_system.Vms.Machine.Bytes.{IsSeparate, store_bytes-outside}
use ece344_operating_system.Vms.Pte.{
  vms_pte_valid, vms_pte_read, vms_pte_write, vms_pte_custom, vms_pte_get_ppn, vms_pte_set_ppn,
}
use ece344_operating_system.Vms.Pte.Flags.{
  Flag, write, custom, set_flag, clear_flag, has_flag, Turns, set_flag-Turns, clear_flag-Turns,
  set_ppn-reads,
}
use ece344_operating_system.Vms.Pages.{
  started, vms_get_page_pointer, enomem, vms_new_page, vms_free_page,
}
use ece344_operating_system.Vms.Pages.Valid.{weight, page_byte, IsValid, Allocates}
use ece344_operating_system.Vms.Pages.Free.{
  freed, vms_free_page_lem, vms_new_page_lem, vms_free_page-vms_new_page,
}
use ece344_operating_system.Vms.PageTable.{
  vms_page_table_index, vms_page_table_pte_entry_from_index, vms_page_table_pte_entry,
  vms_ppn_to_page, vms_page_to_ppn,
}
use ece344_operating_system.Vms.PageTable.Fields.{page-entry, index-address}
use ece344_operating_system.Vms.Fault.{page_fault_handler}
use ece344_operating_system.Vms.Fault.Own.{unshared}
use ece344_operating_system.Vms.Fault.Cow.{page_start, IsInTable, OwnPage}
use ece344_operating_system.Vms.Fault.Handler.{page_fault_handler-copies, page_fault_handler-keeps}
use ece344_operating_system.Vms.Mmu.{
  should_generate_fault, translate_address, mmu, vms_read, vms_write,
}
use ece344_operating_system.Vms.Demonstration
use ece344_operating_system.Vms.Pte.{vms_pte_valid_set, vms_pte_read_set, vms_pte_write_set}
use ece344_operating_system.Vms.Pages.{check_page_aligned}
use ece344_operating_system.Vms.Mmu.{vms_set_root_page_table}
use ece344_operating_system.Vms.Mmu.Ends.{mmu-ends}
use ece344_operating_system.Vms.Mmu.Shared.{vms_write-shared}
use ece344_operating_system.Vms.Mmu.Walk.{Holds, Walk, physical, vms_read-vms_write}

-- What the entries and the tables compute with.
tables : Unit {0}
unfolding vms_pte_valid vms_pte_read vms_pte_write vms_pte_custom vms_pte_get_ppn
    vms_get_page_pointer vms_page_table_index vms_page_table_pte_entry_from_index
    vms_page_table_pte_entry vms_ppn_to_page should_generate_fault translate_address load_bytes
    store_bytes
tables = tt

abbrev base : ℕ
base = 2 ^ 20

set_ppn-reads_example :
    (vms_pte_get_ppn (vms_pte_set_ppn 0x40C07 0x105) ≡ 0x105 % 2 ^ 44)
    × ((f : Flag) → has_flag f (vms_pte_set_ppn 0x40C07 0x105) ≡ has_flag f 0x40C07)
    × vms_pte_set_ppn 0x40C07 0x105 < 2 ^ 64
set_ppn-reads_example = set_ppn-reads 0x40C07 0x105 (omega arith)

page-entry_example :
    (ppn : ℕ) × (vms_page_to_ppn 0x105000 (started base) ≡ ok ppn (started base))
    × (vms_ppn_to_page (vms_pte_get_ppn (vms_pte_set_ppn 0x40C07 ppn)) ≡ 0x105000)
page-entry_example = page-entry 0x105000 0x40C07 (started base) refl (omega arith) (omega arith)

-- A machine after `vms_init`.
started-IsValid : IsValid (started base)
started-IsValid = record {
  aligned = refl;
  fits = omega arith;
  counted = omega (arith, sum_over-zero weight max_pages (λ _. false) (λ i. refl));
  zeroed = λ i offset p q e. refl;
}

vms_new_page_lem_example :
    ((vms_new_page (started base) ≡ exited enomem)
      × ((j : ℕ) → j < max_pages → (started base).allocated j ≡ true))
    ⊎ ((i : ℕ) × (t : Machine) × (vms_new_page (started base)
          ≡ ok (vms_get_page_pointer (started base) i) t)
        × Allocates (started base) i t
        × ((offset : ℕ) → offset < page_size → page_byte t i offset ≡ 0)
        × IsValid t)
vms_new_page_lem_example = vms_new_page_lem (started base) started-IsValid

vms_free_page-vms_new_page_example :
    ((vms_new_page (started base) ≡ exited enomem)
      × ((j : ℕ) → j < max_pages → (started base).allocated j ≡ true))
    ⊎ ((page : ℕ) × (t : Machine) × (vms_new_page (started base) ≡ ok page t)
        × (vms_free_page page t ≡ ok tt (started base)))
vms_free_page-vms_new_page_example = vms_free_page-vms_new_page (started base) started-IsValid

mmu-ends_example : mmu 0xABC123 (started base) ≢ ok none (started base)
mmu-ends_example = mmu-ends 0xABC123 (started base) (started base)

-- The tables of vms/src/main.c: pages 0, 1 and 2 lead from an address to page 3, which can be read and
-- written.
abbrev address : ℕ
address = 0xABC123

abbrev demonstration : Machine
demonstration = record (started base) {
  memory = store_bytes 8 (base + 2 * 4096 + 188 * 8) (259 * 1024 + 7) (
      store_bytes 8 (base + 4096 + 5 * 8) (258 * 1024 + 1)
        (store_bytes 8 base (257 * 1024 + 1) (λ _. 0)));
  allocated = λ i. ltb i 4;
  used_pages = 4;
  root_page_table = base;
}

abbrev demonstration_walk : Walk demonstration address
unfolding tables
demonstration_walk = record {
  value2 = 257 * 1024 + 1;
  value1 = 258 * 1024 + 1;
  value0 = 259 * 1024 + 7;
  l1 = base + 4096;
  l0 = base + 2 * 4096;
  holds2 = record { mapped = refl; loads = refl };
  good2 = refl;
  next2 = refl;
  holds1 = record { mapped = refl; loads = refl };
  good1 = refl;
  next1 = refl;
  holds0 = record { mapped = refl; loads = refl };
  good0 = refl;
}

vms_read-vms_write_example :
    (t : Machine) × (vms_write address 5 demonstration ≡ ok (some tt) t)
    × (physical demonstration_walk ≡ physical demonstration_walk
        → vms_read address t ≡ ok (some 5) t)
    × (IsSeparate (physical demonstration_walk) 4 (physical demonstration_walk) 4
        → (v : ℕ) × (vms_read address demonstration ≡ ok (some v) demonstration)
          × (vms_read address t ≡ ok (some v) t))
unfolding tables
vms_read-vms_write_example =
    vms_read-vms_write demonstration address address 5 demonstration_walk demonstration_walk refl
      refl refl refl
      (record {
        entry2 = inl (omega arith);
        entry1 = inl (omega arith);
        entry0 = inl (omega arith);
      })
      (omega arith)

-- What main of vms/src/main.c prints.
abbrev printed : Outcome (List (Option ℕ)) → List (Option ℕ)
printed (ok values s) = values
printed aborted = []
printed (exited code) = []
printed fault = []

demonstration-prints : printed (Demonstration.main (started base)) ≡ some 1 ∷ some 2 ∷ []
unfolding tables Demonstration.main vms_new_page vms_page_to_ppn vms_pte_set_ppn vms_pte_valid_set
    vms_pte_read_set vms_pte_write_set vms_set_root_page_table check_page_aligned vms_write vms_read
demonstration-prints = refl
