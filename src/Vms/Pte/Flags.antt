-- ===== src/Vms/Pte/Flags.antt =====
-- vms/src/pte.c: its operations on one flag, or on the page number, leave the rest of the entry alone.
use ece344_operating_system.Common.{
  ℕ, zero, suc, ◌+◌, ◌*◌, ◌/◌, ◌%◌, ◌^◌, ◌<◌, ◌≡◌, refl, ap, ◌∙◌, sym, Bool, true, false, not, ◌==◌,
  if◌then◌else◌, arith,
}
use ece344_operating_system.Vms.Pte.{
  vms_pte_valid_clear, vms_pte_valid_set, vms_pte_valid, vms_pte_read_clear, vms_pte_read_set,
  vms_pte_read, vms_pte_write_clear, vms_pte_write_set, vms_pte_write, vms_pte_custom_clear,
  vms_pte_custom_set, vms_pte_custom, vms_pte_get_ppn, vms_pte_set_ppn,
}
use ece344_operating_system.Vms.Pte.Digits.{
  test-digit, set-digit, get_ppn-digits, set_ppn-digits, clear-digit0, clear-digit1, clear-digit2,
  clear-digit8,
}

-- The flags of an entry, with the operations on each.
pub data Flag : Type 0 where
  valid read write custom : Flag

abbrev pub same : Flag → Flag → Bool
same valid valid = true
same read read = true
same write write = true
same custom custom = true
same _ _ = false

abbrev pub set_flag : Flag → ℕ → ℕ
set_flag valid = vms_pte_valid_set
set_flag read = vms_pte_read_set
set_flag write = vms_pte_write_set
set_flag custom = vms_pte_custom_set

abbrev pub clear_flag : Flag → ℕ → ℕ
clear_flag valid = vms_pte_valid_clear
clear_flag read = vms_pte_read_clear
clear_flag write = vms_pte_write_clear
clear_flag custom = vms_pte_custom_clear

abbrev pub has_flag : Flag → ℕ → Bool
has_flag valid = vms_pte_valid
has_flag read = vms_pte_read
has_flag write = vms_pte_write
has_flag custom = vms_pte_custom

abbrev pub position : Flag → ℕ
position valid = 0
position read = 1
position write = 2
position custom = 8

abbrev pub flag_digit : Flag → ℕ → ℕ
flag_digit valid e = e % 2
flag_digit read e = e / 2 % 2
flag_digit write e = e / 4 % 2
flag_digit custom e = e / 256 % 2

one_digit : (d k : ℕ) → d < 2 → not (d * suc k == 0) ≡ (d == 1)
one_digit zero k h = ground arith
one_digit (suc zero) k h = ground arith
one_digit (suc (suc d)) k h = absurd (omega (arith, h))

pub has_flag-digit : (f : Flag) (e : ℕ) → has_flag f e ≡ (flag_digit f e == 1)
unfolding vms_pte_valid vms_pte_read vms_pte_write vms_pte_custom
has_flag-digit valid e =
    test-digit 0 e ∙ ap (λ x. not (x * 1 == 0)) (omega arith) ∙ one_digit (e % 2) 0 (omega arith)
has_flag-digit read e = test-digit 1 e ∙ one_digit (e / 2 % 2) 1 (omega arith)
has_flag-digit write e = test-digit 2 e ∙ one_digit (e / 4 % 2) 3 (omega arith)
has_flag-digit custom e = test-digit 8 e ∙ one_digit (e / 256 % 2) 255 (omega arith)

set_flag-raised :
    (f : Flag) (e : ℕ)
    → set_flag f e ≡ (e / 2 ^ position f / 2 * 2 + 1) * 2 ^ position f + e % 2 ^ position f
unfolding vms_pte_valid_set vms_pte_read_set vms_pte_write_set vms_pte_custom_set
set_flag-raised valid e = set-digit 0 e
set_flag-raised read e = set-digit 1 e
set_flag-raised write e = set-digit 2 e
set_flag-raised custom e = set-digit 8 e

clear_flag-lowered :
    (f : Flag) (e : ℕ)
    → e < 2 ^ 64
    → clear_flag f e ≡ e / 2 ^ position f / 2 * 2 * 2 ^ position f + e % 2 ^ position f
unfolding vms_pte_valid_clear vms_pte_read_clear vms_pte_write_clear vms_pte_custom_clear
clear_flag-lowered valid e h = clear-digit0 e h ∙ omega arith
clear_flag-lowered read e h = clear-digit1 e h ∙ omega arith
clear_flag-lowered write e h = clear-digit2 e h ∙ omega arith
clear_flag-lowered custom e h = clear-digit8 e h ∙ omega arith

-- `t` is `e` with digit `d` at the flag.
abbrev IsPut : Flag → (d e t : ℕ) → Type 0
IsPut f d e t = t ≡ (e / 2 ^ position f / 2 * 2 + d) * 2 ^ position f + e % 2 ^ position f

flag_digit-put :
    (f g : Flag) (d e t : ℕ)
    → d < 2
    → IsPut f d e t
    → flag_digit g t ≡ (if same f g then d else flag_digit g e)
flag_digit-put valid valid d e t low h = omega (arith, h)
flag_digit-put valid read d e t low h = omega (arith, h)
flag_digit-put valid write d e t low h = omega (arith, h)
flag_digit-put valid custom d e t low h = omega (arith, h)
flag_digit-put read valid d e t low h = omega (arith, h)
flag_digit-put read read d e t low h = omega (arith, h)
flag_digit-put read write d e t low h = omega (arith, h)
flag_digit-put read custom d e t low h = omega (arith, h)
flag_digit-put write valid d e t low h = omega (arith, h)
flag_digit-put write read d e t low h = omega (arith, h)
flag_digit-put write write d e t low h = omega (arith, h)
flag_digit-put write custom d e t low h = omega (arith, h)
flag_digit-put custom valid d e t low h = omega (arith, h)
flag_digit-put custom read d e t low h = omega (arith, h)
flag_digit-put custom write d e t low h = omega (arith, h)
flag_digit-put custom custom d e t low h = omega (arith, h)

above-put : (f : Flag) (d e t : ℕ) → d < 2 → IsPut f d e t → t / 2 ^ 10 ≡ e / 2 ^ 10
above-put valid d e t low h = omega (arith, h)
above-put read d e t low h = omega (arith, h)
above-put write d e t low h = omega (arith, h)
above-put custom d e t low h = omega (arith, h)

raised : Bool → ℕ
raised true = 1
raised false = 0

raised_low : (on : Bool) → raised on < 2
unfolding raised
raised_low true = omega arith
raised_low false = omega arith

raised_one : (on : Bool) → (raised on == 1) ≡ on
unfolding raised
raised_one true = refl
raised_one false = refl

-- `t` is the entry `e` with the flag turned on or off, all else as it was.
pub record Turns (f : Flag) (on : Bool) (e t : ℕ) : Type 0 where
  pub flags : (g : Flag) → has_flag g t ≡ (if same f g then on else has_flag g e)
  pub ppn : vms_pte_get_ppn t ≡ vms_pte_get_ppn e
  pub bound : t < 2 ^ 64

put-Turns : (f : Flag) (on : Bool) (e t : ℕ) → e < 2 ^ 64 → IsPut f (raised on) e t → Turns f on e t
put-Turns f on e t bound h = record {
  flags = λ g.
      has_flag-digit g t
      ∙ ap (λ x. x == 1) (flag_digit-put f g (raised on) e t low h)
      ∙ chosen g (same f g);
  ppn = get_ppn-digits t ∙ ap (λ x. x % 2 ^ 44) above ∙ sym (get_ppn-digits e);
  bound = omega (arith, above, bound);
}
  where
    low : raised on < 2
    low = raised_low on

    above : t / 2 ^ 10 ≡ e / 2 ^ 10
    above = above-put f (raised on) e t low h

    chosen :
        (g : Flag) (here : Bool)
        → ((if here then raised on else flag_digit g e) == 1) ≡ (if here then on else has_flag g e)
    chosen g true = raised_one on
    chosen g false = sym (has_flag-digit g e)

-- Setting a flag of a 64-bit entry turns that flag on, and changes neither another flag nor the page
-- number.
pub set_flag-Turns : (f : Flag) (e : ℕ) → e < 2 ^ 64 → Turns f true e (set_flag f e)
unfolding raised
set_flag-Turns f e h = put-Turns f true e (set_flag f e) h (set_flag-raised f e)

-- Clearing a flag of a 64-bit entry turns that flag off, and changes neither another flag nor the
-- page number.
pub clear_flag-Turns : (f : Flag) (e : ℕ) → e < 2 ^ 64 → Turns f false e (clear_flag f e)
unfolding raised
clear_flag-Turns f e h =
    put-Turns f false e (clear_flag f e) h (clear_flag-lowered f e h ∙ plus_zero)
  where
    plus_zero :
        e / 2 ^ position f / 2 * 2 * 2 ^ position f + e % 2 ^ position f
        ≡ (e / 2 ^ position f / 2 * 2 + 0) * 2 ^ position f + e % 2 ^ position f
    plus_zero = ap (λ x. x * 2 ^ position f + e % 2 ^ position f) (omega arith)

-- Setting the page number of a 64-bit entry gives it the low 44 bits of the number, and changes no
-- flag.
pub set_ppn-reads :
    (e p : ℕ)
    → e < 2 ^ 64
    → (vms_pte_get_ppn (vms_pte_set_ppn e p) ≡ p % 2 ^ 44)
      × ((f : Flag) → has_flag f (vms_pte_set_ppn e p) ≡ has_flag f e)
      × vms_pte_set_ppn e p < 2 ^ 64
set_ppn-reads e p h =
    let digits = set_ppn-digits e p h in
    (
      get_ppn-digits (vms_pte_set_ppn e p) ∙ omega (arith, digits),
      λ f.
          has_flag-digit f (vms_pte_set_ppn e p)
          ∙ ap (λ x. x == 1) (flag_digit-kept f digits)
          ∙ sym (has_flag-digit f e),
      omega (arith, digits, h),
    )
  where
    flag_digit-kept :
        (f : Flag)
        → vms_pte_set_ppn e p ≡ e / 2 ^ 54 * 2 ^ 54 + p % 2 ^ 44 * 2 ^ 10 + e % 2 ^ 10
        → flag_digit f (vms_pte_set_ppn e p) ≡ flag_digit f e
    flag_digit-kept valid k = omega (arith, k)
    flag_digit-kept read k = omega (arith, k)
    flag_digit-kept write k = omega (arith, k)
    flag_digit-kept custom k = omega (arith, k)
