-- ===== src/Pht/Tester/Parse.antt =====
-- Which strings parse_uint32_t of pht/src/pht-tester.c takes.
use ece344_operating_system.Common.{
  ℕ, suc, ◌+◌, ◌-◌, ◌*◌, ◌%◌, ◌^◌, ◌<◌, ◌≤◌, ◌≡◌, refl, ap, ◌∙◌, sym, Bool, true, false, ◌&&◌,
  Option, none, some, List, [], ◌∷◌, ltb, leb, ◌==◌, if◌then◌else◌, Bool-cases, inl, inr, dec_lt,
  arith, length, leb→le,
}
use ece344_operating_system.Common.Tables.{for_all_below, for_all_below_lem}
use ece344_operating_system.Pht.Hash.{CString}
use ece344_operating_system.Pht.Tester.{is_refused, parse_loop, parse_uint32_t}

-- The bytes of a C string before its end.
abbrev pub text : CString → List ℕ
text [] = []
text (c ∷ s) = if c == 0 then [] else c ∷ text s

abbrev pub all_digits : List ℕ → Bool
all_digits [] = true
all_digits (c ∷ s) = leb 0x30 c && leb c 0x39 && all_digits s

-- The number that digits are read as, after digits that are read as `before`.
abbrev pub numeral : (before : ℕ) → List ℕ → ℕ
numeral before [] = before
numeral before (c ∷ s) = numeral (before * 10 + (c - 0x30)) s

numeral-ge : (s : List ℕ) (before : ℕ) → before ≤ numeral before s
numeral-ge [] before = omega arith
numeral-ge (c ∷ s) before = omega (arith, numeral-ge s (before * 10 + (c - 0x30)))

-- What the digits `t` are read as, after `i` characters that were read as `current`.
abbrev accepted : (i current : ℕ) → (t : List ℕ) → Option ℕ
accepted i current t =
    if all_digits t && leb (i + length t) 10 && ltb (numeral current t) (2 ^ 32)
    then some (numeral current t)
    else none

-- After `i` characters the number is below 10 ^ i.
record Fits (i current : ℕ) : Type 0 where
  few : i ≤ 10
  digits : current < 10 ^ i
  word : current < 2 ^ 32

abbrev with_digit : (current c : ℕ) → ℕ
with_digit current c = current * 10 + (c - 0x30)

powers_table : for_all_below 10 (λ i. leb (10 ^ i) 1000000000) ≡ true
unfolding for_all_below
powers_table = refl

powers : (i : ℕ) → i < 10 → 10 ^ i ≤ 1000000000
powers i lt = leb→le _ _ (for_all_below_lem 10 (λ i. leb (10 ^ i) 1000000000) i powers_table lt)

next_power : (i current d : ℕ) → current < 10 ^ i → d < 10 → current * 10 + d < 10 ^ suc i
next_power i current d lt digit = omega (arith, lt, digit)

-- What a character that is not refused has.
record Passes (i current c : ℕ) : Type 0 where
  early : i < 10
  above : 48 ≤ c
  below : c ≤ 57
  room : i ≡ 9 → current * 10 + (c - 48) < 4294967296

not_refused_lem : (i current c : ℕ) → i ≤ 10 → is_refused current i c ≡ false → Passes i current c
not_refused_lem i current c few passed = record {
  early = ground (arith, passed, few);
  above = ground (arith, passed);
  below = ground (arith, passed);
  room = λ e. ground (arith, passed, e);
}

module _ (i current c : ℕ) (fits : Fits i current) where
  next-Fits : is_refused current i c ≡ false → Fits (suc i) (with_digit current c)
  next-Fits passed =
      let p = not_refused_lem i current c fits.few passed in
      let next = next_power i current (c - 48) fits.digits (omega (arith, p.above, p.below)) in
      record {
        few = omega (arith, p.early);
        digits = next;
        word = elim (dec_lt i 9) [
          | yes lt ↦ omega (arith, next, powers (suc i) (omega (arith, lt)))
          | no ge ↦ p.room (omega (arith, ge, p.early))
        ];
      }

  refused-none : (t : List ℕ) → is_refused current i c ≡ true → accepted i current (c ∷ t) ≡ none
  refused-none t refused = ground (arith, refused, numeral-ge t (with_digit current c), fits.few)

  passed-accepted :
      (t : List ℕ)
      → is_refused current i c ≡ false
      → accepted i current (c ∷ t) ≡ accepted (suc i) (with_digit current c) t
  passed-accepted t passed =
      let p = not_refused_lem i current c fits.few passed in ground (arith, p.above, p.below)

module _ (i current c : ℕ) (string : CString) where
  loop_step :
      Fits i current
      → (Fits (suc i) (with_digit current c)
          → parse_loop string (suc i) (with_digit current c)
            ≡ accepted (suc i) (with_digit current c) (text string))
      → (if is_refused current i c
          then none
          else parse_loop string (suc i) (with_digit current c % 2 ^ 32))
        ≡ accepted i current (c ∷ text string)
  loop_step fits next = elim (Bool-cases (is_refused current i c)) [
    | inl refused ↦ rw refused (sym (refused-none i current c fits (text string) refused))
    | inr passed ↦
        let fits_next = next-Fits i current c fits passed in
        let same : with_digit current c % 2 ^ 32 ≡ with_digit current c =
          omega (arith, fits_next.word) in
        rw (passed, same)
          (next fits_next ∙ sym (passed-accepted i current c fits (text string) passed))
  ]

parse_loop_lem :
    (string : CString) (i current : ℕ)
    → Fits i current
    → parse_loop string i current ≡ accepted i current (text string)
unfolding parse_loop
parse_loop_lem [] i current fits = ground (arith, fits.few, fits.word)
parse_loop_lem (c ∷ string) i current fits = elim (Bool-cases (c == 0)) [
  | inl ends ↦ rw ends (ground (arith, fits.few, fits.word))
  | inr goes ↦
      rw goes
        (loop_step i current c string fits (parse_loop_lem string (suc i) (with_digit current c)))
]

-- parse_uint32_t takes exactly the strings of at most ten digits whose number is at most UINT32_MAX,
-- the empty string among them as 0, and gives the number; for every other string it exits.
pub parse_uint32_t_lem :
    (string : CString)
    → parse_uint32_t string ≡ (
        if all_digits (text string)
          && leb (length (text string)) 10
          && ltb (numeral 0 (text string)) (2 ^ 32)
        then some (numeral 0 (text string))
        else none)
unfolding parse_uint32_t
parse_uint32_t_lem string =
    parse_loop_lem string 0 0
      (record { few = omega arith; digits = omega arith; word = omega arith })
    ∙ ap
        (λ n.
          if all_digits (text string) && leb n 10 && ltb (numeral 0 (text string)) (2 ^ 32)
          then some (numeral 0 (text string))
          else none)
        (omega arith)
