-- ===== src/Vms/PageTable.antt =====
-- vms/src/page_table.c: addresses, indices and page numbers.
pub mod Fields
use Prim.Native.Nat.{bit_and}
use ece344_operating_system.Common.{ℕ, ◌+◌, ◌*◌, ◌%◌, ◌^◌, ◌==◌}
use ece344_operating_system.Vms.Word.{shift_left, shift_right}
use ece344_operating_system.Vms.Machine.{M, pure, ◌>>=◌, ◌>>◌, check}
use ece344_operating_system.Vms.Pages.{check_page_aligned}

abbrev pub index_bits : ℕ
index_bits = 9

abbrev pub offset_bits : ℕ
offset_bits = 12

unfoldable pub vms_page_table_index : (virtual_address level : ℕ) → ℕ
vms_page_table_index virtual_address level =
    let start_bit = (index_bits * level + offset_bits) % 2 ^ 8 in
    let mask = shift_left 0x1FF start_bit in
    shift_right (bit_and mask virtual_address) start_bit % 2 ^ 16

unfoldable pub vms_page_table_pte_entry_from_index : (page_table index : ℕ) → ℕ
vms_page_table_pte_entry_from_index page_table index = page_table + index * 8

unfoldable pub vms_page_table_pte_entry : (page_table virtual_address level : ℕ) → ℕ
unfolding vms_page_table_index vms_page_table_pte_entry_from_index
vms_page_table_pte_entry page_table virtual_address level =
    let index = vms_page_table_index virtual_address level in
    vms_page_table_pte_entry_from_index page_table index

unfoldable pub vms_ppn_to_page : ℕ → ℕ
vms_ppn_to_page ppn = shift_left ppn offset_bits

unfoldable pub vms_page_to_ppn : ℕ → M ℕ
unfolding check_page_aligned
vms_page_to_ppn pointer = do
  check_page_aligned pointer
  check (bit_and pointer 0xF000000000000000 == 0)
  pure (shift_right pointer offset_bits)
