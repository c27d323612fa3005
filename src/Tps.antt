-- ===== src/Tps.antt =====
-- tps/src/main.c: the list of the processes under /proc. What opendir, readdir and fopen give is an
-- argument; the output is a list of bytes.
pub mod Lines
pub mod Listing
mod Tests
use mathlib.Core.Option
use ece344_operating_system.Common.{
  ℕ, zero, suc, ◌+◌, ◌-◌, ◌*◌, ◌%◌, ◌^◌, Bool, true, false, not, ◌&&◌, ◌||◌, Option, none, some,
  List, [], ◌∷◌, ◌++◌, length, take, drop, replicate, ltb, leb, ◌==◌, if◌then◌else◌,
}

-- The bytes of a C string before its end.
abbrev pub text : List ℕ → List ℕ
text [] = []
text (c ∷ s) = if c == 0 then [] else c ∷ text s

-- The digits that atoi reads, after digits that it read as `n`; strtol stops at a limit.
unfoldable pub read_digits : (limit n : ℕ) → List ℕ → ℕ
read_digits limit n [] = n
read_digits limit n (c ∷ s) =
    let m = n * 10 + (c - 0x30) in
    let rest = read_digits limit (if ltb m limit then m else limit) s in
    if leb 0x30 c && leb c 0x39 then rest else n

abbrev pub long_max : ℕ
long_max = 2 ^ 63 - 1

abbrev pub is_space : ℕ → Bool
is_space c = c == 0x20 || (leb 9 c && leb c 13)

-- 0 != atoi (name): the long that strtol reads is converted to an int.
unfoldable pub atoi_nonzero : List ℕ → Bool
unfolding read_digits
atoi_nonzero [] = false
atoi_nonzero (c ∷ s) =
    let rest = atoi_nonzero s in
    if is_space c
    then rest
    else (if c == b'-'
        then not (read_digits (long_max + 1) 0 s % 2 ^ 32 == 0)
        else (if c == b'+'
            then not (read_digits long_max 0 s % 2 ^ 32 == 0)
            else not (read_digits long_max 0 (c ∷ s) % 2 ^ 32 == 0)))

-- fgets of `room` bytes at most: up to a newline and with it. The second part is left in the file.
unfoldable pub fgets : (room : ℕ) → List ℕ → List ℕ × List ℕ
fgets zero file = ([], file)
fgets (suc room) [] = ([], [])
fgets (suc room) (c ∷ file) =
    let (line, rest) = fgets room file in if c == 10 then (c ∷ [], file) else (c ∷ line, rest)

abbrev pub name_prefix : List ℕ
name_prefix = b'N' ∷ b'a' ∷ b'm' ∷ b'e' ∷ b':' ∷ 9 ∷ []

-- What follows a prefix, if the line starts with it.
unfoldable pub strip_prefix : (prefix line : List ℕ) → Option (List ℕ)
strip_prefix [] line = some line
strip_prefix (p ∷ prefix) [] = none
strip_prefix (p ∷ prefix) (c ∷ line) =
    let rest = strip_prefix prefix line in if c == p then rest else none

-- name[strcspn(name, "\n")] = '\0'
unfoldable pub up_to_newline : List ℕ → List ℕ
up_to_newline [] = []
up_to_newline (c ∷ s) = let rest = up_to_newline s in if c == 10 then [] else c ∷ rest

-- The loop over the lines. `left` is what stands in `name` before, and stays without a name.
unfoldable pub read_name : (fuel : ℕ) (left file : List ℕ) → List ℕ
unfolding fgets strip_prefix up_to_newline
read_name zero left file = left
read_name (suc fuel) left [] = left
read_name (suc fuel) left (c ∷ file) =
    let (buffer, rest) = fgets 255 (c ∷ file) in
    let later = read_name fuel left rest in
    elim (strip_prefix name_prefix (text buffer)) [ some name ↦ up_to_newline name | none ↦ later ]

-- "%5s %s\n"
abbrev pub info_line : (pid name : List ℕ) → List ℕ
info_line pid name = replicate (5 - length pid) 0x20 ++ (pid ++ (0x20 ∷ (name ++ 10 ∷ [])))

abbrev pub proc : List ℕ
proc = b'/' ∷ b'p' ∷ b'r' ∷ b'o' ∷ b'c' ∷ b'/' ∷ []

abbrev pub status : List ℕ
status = b'/' ∷ b's' ∷ b't' ∷ b'a' ∷ b't' ∷ b'u' ∷ b's' ∷ []

abbrev pub path_of : List ℕ → List ℕ
path_of pid = take 255 (proc ++ (pid ++ status))

-- `fopen` gives the content of a file. Each round of the loop reads a byte at least.
unfoldable pub print_process_info : (fopen : List ℕ → Option (List ℕ)) (left pid : List ℕ) → List ℕ
unfolding read_name
print_process_info fopen left pid = elim (fopen (path_of pid)) [
  | none ↦ []
  | some file ↦ info_line pid (text (read_name (suc (length file)) left file))
]

-- What readdir gives.
pub record Dirent : Type 0 where
  pub d_type : ℕ
  pub d_name : List ℕ

abbrev pub heading : List ℕ
heading = b' ' ∷ b' ' ∷ b'P' ∷ b'I' ∷ b'D' ∷ b' ' ∷ b'C' ∷ b'M' ∷ b'D' ∷ 10 ∷ []

-- The loop over the directory.
unfoldable pub print_entries :
    (fopen : List ℕ → Option (List ℕ)) (left : List ℕ) → List Dirent → List ℕ
unfolding print_process_info atoi_nonzero
print_entries fopen left [] = []
print_entries fopen left (ent ∷ rest) =
    (if ent.d_type == 4 && atoi_nonzero ent.d_name
      then print_process_info fopen left ent.d_name
      else [])
    ++ print_entries fopen left rest

-- The output, and the exit code if opendir fails.
unfoldable pub get_process_info :
    (fopen : List ℕ → Option (List ℕ)) (left : List ℕ) (opendir : Option (List Dirent))
    → List ℕ × Option ℕ
unfolding print_entries
get_process_info fopen left none = (heading, some 1)
get_process_info fopen left (some entries) = (heading ++ print_entries fopen left entries, none)
