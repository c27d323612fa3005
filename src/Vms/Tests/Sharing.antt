-- ===== src/Vms/Tests/Sharing.antt =====
-- page_fault_handler of vms/src/vms.c and vms_write of vms/src/mmu.c at a page that is shared.
use ece344_operating_system.Common.{
  ℕ, ◌+◌, ◌*◌, ◌%◌, ◌≤◌, ◌<◌, ◌≡◌, ◌≢◌, refl, ◌∙◌, ◌⊎◌, inl, true, false, some, ltb, ◌==◌, arith,
  if◌then◌else◌,
}
use ece344_operating_system.Common.Family.{update, sum_over}
use ece344_operating_system.Vms.Machine.{
  page_size, max_pages, Machine, ok, aborted, exited, load_bytes, store_bytes,
}
use ece344_operating_system.Vms.Machine.Bytes.{IsSeparate, store_bytes-outside}
use ece344_operating_system.Vms.Pte.{vms_pte_write, vms_pte_custom, vms_pte_get_ppn}
use ece344_operating_system.Vms.Pages.{started, vms_get_page_pointer, enomem, vms_free_page}
use ece344_operating_system.Vms.Pages.Valid.{page_byte, IsValid}
use ece344_operating_system.Vms.Pages.Free.{freed, vms_free_page_lem}
use ece344_operating_system.Vms.PageTable.{vms_page_table_pte_entry, vms_ppn_to_page}
use ece344_operating_system.Vms.Fault.{page_fault_handler}
use ece344_operating_system.Vms.Fault.Cow.{page_start, IsInTable, OwnPage}
use ece344_operating_system.Vms.Fault.Handler.{page_fault_handler-copies}
use ece344_operating_system.Vms.Mmu.{vms_write}
use ece344_operating_system.Vms.Mmu.Shared.{vms_write-shared}
use ece344_operating_system.Vms.Mmu.Walk.{Holds, Walk}
use ece344_operating_system.Vms.Tests.{tables, base, address}

-- Page 3 is shared with `references` other entries, and cannot be written.
abbrev pub shared_entry : ℕ
shared_entry = 259 * 1024 + 256 + 3

abbrev pub sharing : ℕ → Machine
sharing references = record (started base) {
  memory = store_bytes 8 (base + 2 * 4096 + 188 * 8) shared_entry (
      store_bytes 8 (base + 4096 + 5 * 8) (258 * 1024 + 1)
        (store_bytes 8 base (257 * 1024 + 1) (λ _. 0)));
  allocated = λ i. ltb i 4;
  used_pages = 4;
  root_page_table = base;
  ref_track = λ i. if 3 == i then references else 0;
}

sharing-zeroed : (references a : ℕ) → base + 4 * 4096 ≤ a → (sharing references).memory a ≡ 0
sharing-zeroed references a far =
    store_bytes-outside 8 (base + 2 * 4096 + 188 * 8) shared_entry a _ (inl (omega (arith, far)))
    ∙ store_bytes-outside 8 (base + 4096 + 5 * 8) (258 * 1024 + 1) a _ (inl (omega (arith, far)))
    ∙ store_bytes-outside 8 base (257 * 1024 + 1) a (λ _. 0) (inl (omega (arith, far)))

sharing-IsValid : (references : ℕ) → IsValid (sharing references)
unfolding sum_over
sharing-IsValid references = record {
  aligned = refl;
  fits = omega arith;
  counted = refl;
  zeroed = λ i offset p q e.
      let far : 4 ≤ i = ground (arith, e) in
      sharing-zeroed references (base + i * 4096 + offset) (omega (arith, far));
}

vms_free_page_lem_example :
    (((sharing 0).allocated 3 ≡ true)
      × (vms_free_page (vms_get_page_pointer (sharing 0) 3) (sharing 0)
          ≡ ok tt (freed (sharing 0) 3))
      × ((freed (sharing 0) 3).used_pages + 1 ≡ (sharing 0).used_pages)
      × ((j offset : ℕ)
          → 3 ≢ j
          → offset < page_size
          → page_byte (freed (sharing 0) 3) j offset ≡ page_byte (sharing 0) j offset)
      × IsValid (freed (sharing 0) 3))
    ⊎ (((sharing 0).allocated 3 ≡ false)
        × (vms_free_page (vms_get_page_pointer (sharing 0) 3) (sharing 0) ≡ aborted))
vms_free_page_lem_example = vms_free_page_lem (sharing 0) 3 (sharing-IsValid 0) (omega arith)

sharing-Holds :
    (references : ℕ)
    → Holds (sharing references) (vms_page_table_pte_entry (base + 2 * 4096) address 0) shared_entry
unfolding tables
sharing-Holds references = record { mapped = refl; loads = refl }

shared_entry-custom : vms_pte_custom shared_entry ≡ true
unfolding tables
shared_entry-custom = refl

pub shared_entry-page :
    (references : ℕ)
    → vms_ppn_to_page (vms_pte_get_ppn shared_entry) ≡ vms_get_page_pointer (sharing references) 3
unfolding tables
shared_entry-page references = refl

sharing-IsInTable :
    (references : ℕ)
    → IsInTable (sharing references) (vms_page_table_pte_entry (base + 2 * 4096) address 0) 3
unfolding tables
sharing-IsInTable references = record {
  table = 2;
  used = refl;
  other = omega arith;
  from = omega arith;
  upto = omega arith;
}

page_fault_handler-copies_example :
    ((page_fault_handler address 0 (base + 2 * 4096) (sharing 1) ≡ exited enomem)
      × ((j : ℕ) → j < max_pages → (sharing 1).allocated j ≡ true))
    ⊎ ((j : ℕ) × (t : Machine) × (page_fault_handler address 0 (base + 2 * 4096) (sharing 1)
          ≡ ok tt t)
        × (j < max_pages)
        × ((sharing 1).allocated j ≡ false)
        × ((m : ℕ) → m < j → (sharing 1).allocated m ≡ true)
        × OwnPage
            (sharing 1)
            (vms_page_table_pte_entry (base + 2 * 4096) address 0)
            shared_entry
            3
            0
            j
            t)
page_fault_handler-copies_example =
    page_fault_handler-copies (sharing 1) address 0 (base + 2 * 4096) 3 shared_entry 0
      (sharing-IsValid 1) (omega arith) (omega arith) (omega arith) (sharing-Holds 1)
      shared_entry-custom (shared_entry-page 1) (sharing-IsInTable 1) refl

abbrev sharing_walk : Walk (sharing 1) address
unfolding tables
sharing_walk = record {
  value2 = 257 * 1024 + 1;
  value1 = 258 * 1024 + 1;
  value0 = shared_entry;
  l1 = base + 4096;
  l0 = base + 2 * 4096;
  holds2 = record { mapped = refl; loads = refl };
  good2 = refl;
  next2 = refl;
  holds1 = record { mapped = refl; loads = refl };
  good1 = refl;
  next1 = refl;
  holds0 = record { mapped = refl; loads = refl };
  good0 = refl;
}

shared_entry-locked : vms_pte_write shared_entry ≡ false
unfolding tables
shared_entry-locked = refl

vms_write-shared_example :
    ((vms_write address 5 (sharing 1) ≡ exited enomem)
      × ((j : ℕ) → j < max_pages → (sharing 1).allocated j ≡ true))
    ⊎ ((j : ℕ) × (u : Machine) × (vms_write address 5 (sharing 1) ≡ ok (some tt) u)
        × (j < max_pages)
        × ((sharing 1).allocated j ≡ false)
        × ((m : ℕ) → m < j → (sharing 1).allocated m ≡ true)
        × (load_bytes 4 (page_start (sharing 1) j + address % page_size) u.memory ≡ 5)
        × ((offset : ℕ)
            → offset < page_size
            → IsSeparate (address % page_size) 4 offset 1
            → u.memory (page_start (sharing 1) j + offset)
              ≡ (sharing 1).memory (page_start (sharing 1) 3 + offset))
        × ((offset : ℕ)
            → offset < page_size
            → u.memory (page_start (sharing 1) 3 + offset)
              ≡ (sharing 1).memory (page_start (sharing 1) 3 + offset))
        × (u.ref_track ≡ update (sharing 1).ref_track 3 0))
unfolding tables
vms_write-shared_example =
    vms_write-shared (sharing 1) address 5 3 0 sharing_walk (sharing-IsValid 1) (omega arith) refl
      (omega arith) (omega arith) shared_entry-locked shared_entry-custom (shared_entry-page 1)
      (sharing-IsInTable 1) refl (omega arith) (omega arith)
