-- ===== src/Vms/Pte.antt =====
-- vms/src/pte.c: the flags and the physical page number of a page table entry, a uint64_t.
pub mod Digits
pub mod Flags
use Prim.Native.Nat.{bit_and, bit_or}
use ece344_operating_system.Common.{
  ℕ, zero, suc, ◌+◌, ◌-◌, ◌*◌, ◌/◌, ◌%◌, ◌^◌, ◌<◌, ◌≡◌, refl, ap, ◌∙◌, Bool, true, false, not, ◌==◌,
  arith,
}
use ece344_operating_system.Common.Masks.{bit_and-field, bit_and-hole, bit_or-digit, bit_or-high}
use ece344_operating_system.Vms.Word.{bit_not, shift_left, shift_right}

abbrev pub pte_custom : ℕ
pte_custom = shift_left 1 8

abbrev pub pte_write : ℕ
pte_write = shift_left 1 2

abbrev pub pte_read : ℕ
pte_read = shift_left 1 1

abbrev pub pte_valid : ℕ
pte_valid = shift_left 1 0

abbrev pub pte_ppn_start_bit : ℕ
pte_ppn_start_bit = 10

-- The three operations at a flag: *entry &= ~flag, *entry |= flag, (*entry & flag) != 0.
abbrev pub clear : ℕ → ℕ → ℕ
clear flag entry = bit_and entry (bit_not flag)

abbrev pub set : ℕ → ℕ → ℕ
set flag entry = bit_or entry flag

abbrev pub test : ℕ → ℕ → Bool
test flag entry = not (bit_and entry flag == 0)

unfoldable pub vms_pte_valid_clear : ℕ → ℕ
vms_pte_valid_clear = clear pte_valid

unfoldable pub vms_pte_valid_set : ℕ → ℕ
vms_pte_valid_set = set pte_valid

unfoldable pub vms_pte_valid : ℕ → Bool
vms_pte_valid = test pte_valid

unfoldable pub vms_pte_read_clear : ℕ → ℕ
vms_pte_read_clear = clear pte_read

unfoldable pub vms_pte_read_set : ℕ → ℕ
vms_pte_read_set = set pte_read

unfoldable pub vms_pte_read : ℕ → Bool
vms_pte_read = test pte_read

unfoldable pub vms_pte_write_clear : ℕ → ℕ
vms_pte_write_clear = clear pte_write

unfoldable pub vms_pte_write_set : ℕ → ℕ
vms_pte_write_set = set pte_write

unfoldable pub vms_pte_write : ℕ → Bool
vms_pte_write = test pte_write

unfoldable pub vms_pte_custom_clear : ℕ → ℕ
vms_pte_custom_clear = clear pte_custom

unfoldable pub vms_pte_custom_set : ℕ → ℕ
vms_pte_custom_set = set pte_custom

unfoldable pub vms_pte_custom : ℕ → Bool
vms_pte_custom = test pte_custom

unfoldable pub vms_pte_get_ppn : ℕ → ℕ
vms_pte_get_ppn entry =
    let mask = shift_right (shift_left (bit_not 0) 20) pte_ppn_start_bit in
    shift_right (bit_and entry mask) pte_ppn_start_bit

unfoldable pub vms_pte_set_ppn : ℕ → ℕ → ℕ
vms_pte_set_ppn entry ppn =
    let mask = bit_not (shift_right (shift_left (bit_not 0) 20) pte_ppn_start_bit) in
    bit_or (bit_and entry mask) (shift_right (shift_left ppn 20) pte_ppn_start_bit)
