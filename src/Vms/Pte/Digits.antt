-- ===== src/Vms/Pte/Digits.antt =====
-- What the operations of vms/src/pte.c do to the binary digits of an entry.
use Prim.Native.Nat.{bit_and, bit_or}
use ece344_operating_system.Common.{ℕ, ◌+◌, ◌*◌, ◌/◌, ◌%◌, ◌^◌, ◌<◌, ◌≡◌, ap, ◌∙◌, not, ◌==◌, arith}
use ece344_operating_system.Common.Masks.{
  bit_and-field, bit_and-hole, bit_or-disjoint, bit_or-digit, bit_or-high,
}
use ece344_operating_system.Vms.Word.{shift_left, shift_right}
use ece344_operating_system.Vms.Pte.{clear, set, test, vms_pte_get_ppn, vms_pte_set_ppn}

-- The digit of an entry that the flag 2 ^ k is.
abbrev pub digit : ℕ → ℕ → ℕ
digit k e = e / 2 ^ k % 2

pub test-digit : (k e : ℕ) → test (2 ^ k) e ≡ not (digit k e * 2 ^ k == 0)
test-digit k e = ap (λ x. not (x == 0)) (ap (bit_and e) (omega arith) ∙ bit_and-field 1 k e)

pub set-digit : (k e : ℕ) → set (2 ^ k) e ≡ (e / 2 ^ k / 2 * 2 + 1) * 2 ^ k + e % 2 ^ k
set-digit k e = bit_or-digit k e

pub get_ppn-digits : (e : ℕ) → vms_pte_get_ppn e ≡ e / 2 ^ 10 % 2 ^ 44
unfolding vms_pte_get_ppn
get_ppn-digits e = ap (λ x. x / 1024) (bit_and-field 44 10 e) ∙ omega arith

pub set_ppn-digits :
    (e p : ℕ)
    → e < 2 ^ 64
    → vms_pte_set_ppn e p ≡ e / 2 ^ 54 * 2 ^ 54 + p % 2 ^ 44 * 2 ^ 10 + e % 2 ^ 10
unfolding vms_pte_set_ppn
set_ppn-digits e p h =
    ap (λ x. bit_or x (shift_right (shift_left p 20) 10))
      (bit_and-hole 10 10 54 e (omega arith) (omega (arith, h)) ∙ kept)
    ∙ ap (bit_or (e / 2 ^ 54 * 2 ^ 44 * 2 ^ 10 + e % 2 ^ 10)) shifted
    ∙ bit_or-high 10 (e / 2 ^ 54 * 2 ^ 44) (p % 2 ^ 44) (e % 2 ^ 10) (omega arith)
    ∙ omega (arith, bit_or-disjoint 44 (e / 2 ^ 54) (p % 2 ^ 44) (omega arith))
  where
    kept : e / 2 ^ 54 * 2 ^ 54 + e % 2 ^ 54 % 2 ^ 10 ≡ e / 2 ^ 54 * 2 ^ 44 * 2 ^ 10 + e % 2 ^ 10
    kept = omega arith

    shifted : shift_right (shift_left p 20) 10 ≡ p % 2 ^ 44 * 2 ^ 10
    shifted = omega arith

pub clear-digit0 : (e : ℕ) → e < 2 ^ 64 → clear 1 e ≡ e / 2 * 2
clear-digit0 e h = bit_and-hole 63 0 1 e (omega arith) (omega (arith, h)) ∙ omega arith

pub clear-digit1 : (e : ℕ) → e < 2 ^ 64 → clear 2 e ≡ e / 4 * 4 + e % 2
clear-digit1 e h = bit_and-hole 62 1 2 e (omega arith) (omega (arith, h)) ∙ omega arith

pub clear-digit2 : (e : ℕ) → e < 2 ^ 64 → clear 4 e ≡ e / 8 * 8 + e % 4
clear-digit2 e h = bit_and-hole 61 2 3 e (omega arith) (omega (arith, h)) ∙ omega arith

pub clear-digit8 : (e : ℕ) → e < 2 ^ 64 → clear 256 e ≡ e / 512 * 512 + e % 256
clear-digit8 e h = bit_and-hole 55 8 9 e (omega arith) (omega (arith, h)) ∙ omega arith
