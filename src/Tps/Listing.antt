-- ===== src/Tps/Listing.antt =====
-- What tps/src/main.c prints of a directory.
use ece344_operating_system.Common.{
  ℕ, suc, ◌<◌, ◌≡◌, refl, ap, ◌∙◌, true, false, ◌&&◌, Option, none, some, List, [], ◌∷◌, ◌++◌,
  length, ◌==◌, if◌then◌else◌, arith,
}
use ece344_operating_system.Tps.{
  text, name_prefix, print_process_info, path_of, info_line, Dirent, atoi_nonzero, print_entries,
  get_process_info, heading,
}
use ece344_operating_system.Tps.Lines.{
  is_plain, unlines, IsBefore, read_name_lem, length-unlines, text-is_plain,
}

-- A status file with a name.
pub record StatusFile : Type 0 where
  pub before : List (List ℕ)
  pub name : List ℕ
  pub rest : List ℕ

abbrev pub file_bytes : StatusFile → List ℕ
file_bytes f = unlines f.before ((name_prefix ++ f.name) ++ 10 ∷ f.rest)

-- What it needs to be read: short lines without a name, and a short name.
pub record IsReadable (f : StatusFile) : Type 0 where
  pub lines : IsBefore f.before
  pub plain : is_plain f.name ≡ true
  pub short : length f.name < 249

print_process_info_lem :
    (fopen : List ℕ → Option (List ℕ)) (left pid : List ℕ) (f : StatusFile)
    → IsReadable f
    → fopen (path_of pid) ≡ some (file_bytes f)
    → print_process_info fopen left pid ≡ info_line pid f.name
unfolding print_process_info
print_process_info_lem fopen left pid f readable e =
    let named =
      read_name_lem f.before (suc (length (file_bytes f))) left f.name f.rest readable.lines
        readable.plain readable.short
        (omega (arith, length-unlines f.before ((name_prefix ++ f.name) ++ 10 ∷ f.rest))) in
    rw (print_process_info, e)
      (ap (λ n. info_line pid (text n)) named
        ∙ ap (info_line pid) (text-is_plain f.name readable.plain))

-- What should be shown of an entry of /proc: nothing if it is no directory with a number or its
-- process is gone, and else its number and name.
pub data Shows (fopen : List ℕ → Option (List ℕ)) (ent : Dirent) : List ℕ → Type 0 where
  other : (ent.d_type == 4 && atoi_nonzero ent.d_name) ≡ false → Shows fopen ent []
  gone :
      (ent.d_type == 4 && atoi_nonzero ent.d_name) ≡ true
      → fopen (path_of ent.d_name) ≡ none
      → Shows fopen ent []
  process :
      (f : StatusFile)
      → (ent.d_type == 4 && atoi_nonzero ent.d_name) ≡ true
      → fopen (path_of ent.d_name) ≡ some (file_bytes f)
      → IsReadable f
      → Shows fopen ent (info_line ent.d_name f.name)

-- The text for all entries of the directory.
pub data ShowsAll (fopen : List ℕ → Option (List ℕ)) : List Dirent → List ℕ → Type 0 where
  nothing : ShowsAll fopen [] []
  entry :
      {ent : Dirent} {rest : List Dirent} {line lines : List ℕ}
      → Shows fopen ent line
      → ShowsAll fopen rest lines
      → ShowsAll fopen (ent ∷ rest) (line ++ lines)

print_entry_lem :
    (fopen : List ℕ → Option (List ℕ)) (left : List ℕ) (ent : Dirent) {line : List ℕ}
    → Shows fopen ent line
    → (if ent.d_type == 4 && atoi_nonzero ent.d_name
        then print_process_info fopen left ent.d_name
        else [])
      ≡ line
unfolding print_process_info
print_entry_lem fopen left ent (other e) = rw e refl
print_entry_lem fopen left ent (gone is e) = rw (is, print_process_info, e) refl
print_entry_lem fopen left ent (process f is e readable) =
    rw is (print_process_info_lem fopen left ent.d_name f readable e)

print_entries_lem :
    (fopen : List ℕ → Option (List ℕ)) (left : List ℕ) {entries : List Dirent} {lines : List ℕ}
    → ShowsAll fopen entries lines
    → print_entries fopen left entries ≡ lines
unfolding print_entries
print_entries_lem fopen left nothing = refl
print_entries_lem fopen left (entry {ent = ent} {rest = rest} {line = line} one all) =
    ap (λ l. l ++ print_entries fopen left rest) (print_entry_lem fopen left ent one)
    ∙ ap (λ l. line ++ l) (print_entries_lem fopen left all)

-- The output is the heading and, in the order of the directory, a line for each directory with a
-- number whose status file can be read, with the name that the file gives; without the directory
-- the exit code is 1.
pub get_process_info_lem :
    (fopen : List ℕ → Option (List ℕ)) (left : List ℕ) (entries : List Dirent) (lines : List ℕ)
    → ShowsAll fopen entries lines
    → (get_process_info fopen left (some entries) ≡ (heading ++ lines, none))
      × (get_process_info fopen left none ≡ (heading, some 1))
unfolding get_process_info
get_process_info_lem fopen left entries lines all =
    (ap (λ l. (heading ++ l, none)) (print_entries_lem fopen left all), refl)
