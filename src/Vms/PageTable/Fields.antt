-- ===== src/Vms/PageTable/Fields.antt =====
-- vms/src/page_table.c: the fields of a virtual address, and page numbers in entries.
use Prim.Native.Nat.{bit_and}
use ece344_operating_system.Common.{
  ℕ, zero, suc, ◌+◌, ◌*◌, ◌/◌, ◌%◌, ◌^◌, ◌≤◌, ◌<◌, ◌≡◌, refl, ap, ◌∙◌, ◌==◌, true, arith,
}
use ece344_operating_system.Common.Bits.{bit_and_comm}
use ece344_operating_system.Common.Masks.{bit_and-field}
use ece344_operating_system.Vms.Word.{shift_left, shift_right}
use ece344_operating_system.Vms.Machine.{page_size, Machine, ok}
use ece344_operating_system.Vms.Pte.{vms_pte_get_ppn, vms_pte_set_ppn}
use ece344_operating_system.Vms.Pte.Flags.{set_ppn-reads}
use ece344_operating_system.Vms.Pages.{check_page_aligned}
use ece344_operating_system.Vms.PageTable.{
  vms_page_table_index, vms_page_table_pte_entry_from_index, vms_page_table_pte_entry,
  vms_ppn_to_page, vms_page_to_ppn,
}

-- At level `l` the index is the 9 bits of the address from bit 9 * l + 12 on.
index-digits0 : (va : ℕ) → vms_page_table_index va 0 ≡ va / 2 ^ 12 % 2 ^ 9
unfolding vms_page_table_index
index-digits0 va =
    ap (λ x. shift_right x 12 % 2 ^ 16)
      (bit_and_comm (shift_left 0x1FF 12) va ∙ bit_and-field 9 12 va)
    ∙ omega arith

index-digits1 : (va : ℕ) → vms_page_table_index va 1 ≡ va / 2 ^ 21 % 2 ^ 9
unfolding vms_page_table_index
index-digits1 va =
    ap (λ x. shift_right x 21 % 2 ^ 16)
      (bit_and_comm (shift_left 0x1FF 21) va ∙ bit_and-field 9 21 va)
    ∙ omega arith

index-digits2 : (va : ℕ) → vms_page_table_index va 2 ≡ va / 2 ^ 30 % 2 ^ 9
unfolding vms_page_table_index
index-digits2 va =
    ap (λ x. shift_right x 30 % 2 ^ 16)
      (bit_and_comm (shift_left 0x1FF 30) va ∙ bit_and-field 9 30 va)
    ∙ omega arith

-- The indices of the three levels and the offset are the digits of the low 39 bits of an address, the
-- indices in base 512.
pub index-address :
    (va : ℕ)
    → ((vms_page_table_index va 2 * 512 + vms_page_table_index va 1) * 512
            + vms_page_table_index va 0)
          * 4096
        + va % 4096
      ≡ va % 2 ^ 39
index-address va = omega (arith, index-digits0 va, index-digits1 va, index-digits2 va)

pub index-bound : (va level : ℕ) → level < 3 → vms_page_table_index va level < 512
index-bound va zero h = omega (arith, index-digits0 va)
index-bound va (suc zero) h = omega (arith, index-digits1 va)
index-bound va (suc (suc zero)) h = omega (arith, index-digits2 va)
index-bound va (suc (suc (suc level))) h = absurd (omega (arith, h))

-- An entry of a table lies in the table's page.
pub entry-bounds :
    (table va level : ℕ)
    → level < 3
    → (table ≤ vms_page_table_pte_entry table va level)
      × (vms_page_table_pte_entry table va level + 8 ≤ table + page_size)
unfolding vms_page_table_pte_entry vms_page_table_pte_entry_from_index
entry-bounds table va level lt =
    let small = index-bound va level lt in (omega arith, omega (arith, small))

pub page_to_ppn-number :
    (page : ℕ) (s : Machine)
    → page % page_size ≡ 0
    → page < 2 ^ 60
    → vms_page_to_ppn page s ≡ ok (page / 2 ^ 12) s
unfolding vms_page_to_ppn check_page_aligned
page_to_ppn-number page s aligned small =
    let even : (page % page_size == 0) ≡ true = ground (arith, aligned) in
    let high : bit_and page 0xF000000000000000 ≡ 0 =
      bit_and-field 4 60 page ∙ omega (arith, small) in
    let top : (bit_and page 0xF000000000000000 == 0) ≡ true = ground (arith, high) in
    rw (even, top) refl

pub set_ppn-page :
    (page entry : ℕ)
    → page % page_size ≡ 0
    → page < 2 ^ 56
    → entry < 2 ^ 64
    → vms_ppn_to_page (vms_pte_get_ppn (vms_pte_set_ppn entry (page / 2 ^ 12))) ≡ page
unfolding vms_ppn_to_page
set_ppn-page page entry aligned small fits =
    ap (λ x. shift_left x 12) (set_ppn-reads entry (page / 2 ^ 12) fits).0
    ∙ omega (arith, aligned, small)

-- The number of an aligned page below 2 ^ 56, stored in any 64-bit entry, leads back to the page.
pub page-entry :
    (page entry : ℕ) (s : Machine)
    → page % page_size ≡ 0
    → page < 2 ^ 56
    → entry < 2 ^ 64
    → (ppn : ℕ) × (vms_page_to_ppn page s ≡ ok ppn s)
      × (vms_ppn_to_page (vms_pte_get_ppn (vms_pte_set_ppn entry ppn)) ≡ page)
page-entry page entry s aligned small fits = (
  page / 2 ^ 12,
  page_to_ppn-number page s aligned (omega (arith, small)),
  set_ppn-page page entry aligned small fits,
)
