-- ===== src/Tps/Lines.antt =====
-- The lines of a status file that tps/src/main.c reads.
use ece344_operating_system.Common.{
  ℕ, zero, suc, ◌<◌, ◌≤◌, ◌≡◌, refl, ap, ◌∙◌, Bool, true, false, Option, none, some, List, [], ◌∷◌,
  ◌++◌, length, ◌==◌, if◌then◌else◌, arith, length-append,
}
use ece344_operating_system.Tps.{text, fgets, name_prefix, strip_prefix, up_to_newline, read_name}

-- Neither a newline nor a 0.
abbrev pub is_plain : List ℕ → Bool
is_plain [] = true
is_plain (c ∷ s) = if c == 10 then false else (if c == 0 then false else is_plain s)

-- A line that ends with a newline and is short enough is read whole.
fgets-line :
    (room : ℕ) (line file : List ℕ)
    → is_plain line ≡ true
    → length line < room
    → fgets room (line ++ 10 ∷ file) ≡ (line ++ 10 ∷ [], file)
unfolding fgets
fgets-line zero line file plain lt = absurd (omega (arith, lt))
fgets-line (suc room) [] file plain lt = refl
fgets-line (suc room) (c ∷ line) file plain lt =
    let no_newline : (c == 10) ≡ false = ground (arith, plain) in
    let rest : is_plain line ≡ true = ground (arith, plain) in
    rw (no_newline, fgets-line room line file rest (omega (arith, lt))) refl

text-line : (line : List ℕ) → is_plain line ≡ true → text (line ++ 10 ∷ []) ≡ line ++ 10 ∷ []
text-line [] plain = refl
text-line (c ∷ line) plain =
    let no_end : (c == 0) ≡ false = ground (arith, plain) in
    let rest : is_plain line ≡ true = ground (arith, plain) in rw (no_end, text-line line rest) refl

up_to_newline-line : (line : List ℕ) → is_plain line ≡ true → up_to_newline (line ++ 10 ∷ []) ≡ line
unfolding up_to_newline
up_to_newline-line [] plain = refl
up_to_newline-line (c ∷ line) plain =
    let no_newline : (c == 10) ≡ false = ground (arith, plain) in
    let rest : is_plain line ≡ true = ground (arith, plain) in
    rw (no_newline, up_to_newline-line line rest) refl

-- The bytes of lines, each with its newline.
abbrev pub unlines : List (List ℕ) → List ℕ → List ℕ
unlines [] rest = rest
unlines (line ∷ ls) rest = line ++ 10 ∷ unlines ls rest

-- Lines that fgets reads whole and that are no name.
abbrev pub IsBefore : List (List ℕ) → Type 0
IsBefore [] = Unit {0}
IsBefore (line ∷ ls) =
    (is_plain line ≡ true)
    × (length line < 255)
    × (strip_prefix name_prefix (line ++ 10 ∷ []) ≡ none)
    × IsBefore ls

-- The name that was found, or what comes later.
abbrev found_or : List ℕ → Option (List ℕ) → List ℕ
found_or later (some name) = up_to_newline name
found_or later none = later

-- A round of the loop reads a line.
round :
    (fuel : ℕ) (left line file : List ℕ)
    → is_plain line ≡ true
    → length line < 255
    → read_name (suc fuel) left (line ++ 10 ∷ file)
      ≡ found_or (read_name fuel left file) (strip_prefix name_prefix (line ++ 10 ∷ []))
unfolding read_name fgets
round fuel left [] file plain short = refl
round fuel left (c ∷ line) file plain short =
    ap (λ p. found_or (read_name fuel left p.1) (strip_prefix name_prefix (text p.0)))
      (fgets-line 255 (c ∷ line) file plain short)
    ∙ ap (λ b. found_or (read_name fuel left file) (strip_prefix name_prefix b))
        (text-line (c ∷ line) plain)

strip_prefix-prefix : (prefix line : List ℕ) → strip_prefix prefix (prefix ++ line) ≡ some line
unfolding strip_prefix
strip_prefix-prefix [] line = refl
strip_prefix-prefix (p ∷ prefix) line =
    let here : (p == p) ≡ true = ground arith in rw here (strip_prefix-prefix prefix line)

-- Behind lines that are no name, the first line of the form Name:, a tab and a name gives the name.
pub read_name_lem :
    (before : List (List ℕ)) (fuel : ℕ) (left name rest : List ℕ)
    → IsBefore before
    → is_plain name ≡ true
    → length name < 249
    → length before < fuel
    → read_name fuel left (unlines before ((name_prefix ++ name) ++ 10 ∷ rest)) ≡ name
read_name_lem before zero left name rest lines plain short more = absurd (omega (arith, more))
read_name_lem [] (suc fuel) left name rest lines plain short more =
    round fuel left (name_prefix ++ name) rest plain (omega (arith, short))
    ∙ ap (found_or (read_name fuel left rest)) (strip_prefix-prefix name_prefix (name ++ 10 ∷ []))
    ∙ up_to_newline-line name plain
read_name_lem (line ∷ before) (suc fuel) left name rest (p, q, r, lines) plain short more =
    round fuel left line (unlines before ((name_prefix ++ name) ++ 10 ∷ rest)) p q
    ∙ ap (found_or (read_name fuel left (unlines before ((name_prefix ++ name) ++ 10 ∷ rest)))) r
    ∙ read_name_lem before fuel left name rest lines plain short (omega (arith, more))

pub length-unlines : (ls : List (List ℕ)) (rest : List ℕ) → length ls ≤ length (unlines ls rest)
length-unlines [] rest = omega arith
length-unlines (line ∷ ls) rest =
    omega (arith, length-unlines ls rest, length-append line (10 ∷ unlines ls rest))

pub text-is_plain : (s : List ℕ) → is_plain s ≡ true → text s ≡ s
text-is_plain [] plain = refl
text-is_plain (c ∷ s) plain =
    let no_end : (c == 0) ≡ false = ground (arith, plain) in
    let rest : is_plain s ≡ true = ground (arith, plain) in rw (no_end, text-is_plain s rest) refl
