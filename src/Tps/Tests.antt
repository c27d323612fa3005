-- ===== src/Tps/Tests.antt =====
-- A run of tps/src/main.c over a directory with two processes, one of which is gone.
use ece344_operating_system.Common.{
  ℕ, ◌≡◌, refl, false, Option, none, some, List, [], ◌∷◌, ◌++◌, ◌==◌, length, if◌then◌else◌, arith,
}
use ece344_operating_system.Tps.{atoi_nonzero, Dirent, get_process_info, heading}
use ece344_operating_system.Tps.Listing.{
  StatusFile, file_bytes, other, gone, process, nothing, entry, get_process_info_lem,
}

atoi_self : atoi_nonzero (b's' ∷ b'e' ∷ b'l' ∷ b'f' ∷ []) ≡ false
unfolding atoi_nonzero
atoi_self = refl

-- 2 ^ 32 becomes the int 0.
atoi_wraps :
    atoi_nonzero (b'4' ∷ b'2' ∷ b'9' ∷ b'4' ∷ b'9' ∷ b'6' ∷ b'7' ∷ b'2' ∷ b'9' ∷ b'6' ∷ []) ≡ false
unfolding atoi_nonzero
atoi_wraps = refl

abbrev init_file : StatusFile
init_file = record { before = []; name = b'i' ∷ b'n' ∷ b'i' ∷ b't' ∷ []; rest = b'U' ∷ 10 ∷ [] }

-- Only the file of process 1, whose path has 14 bytes, is there.
abbrev files : List ℕ → Option (List ℕ)
files path = if length path == 14 then some (file_bytes init_file) else none

abbrev entries : List Dirent
entries =
    record { d_type = 4; d_name = b'1' ∷ [] }
    ∷ record { d_type = 8; d_name = b's' ∷ b't' ∷ b'a' ∷ b't' ∷ [] }
    ∷ record { d_type = 4; d_name = b'4' ∷ b'2' ∷ [] }
    ∷ []

abbrev output : List ℕ
output = b' ' ∷ b' ' ∷ b' ' ∷ b' ' ∷ b'1' ∷ b' ' ∷ b'i' ∷ b'n' ∷ b'i' ∷ b't' ∷ 10 ∷ []

get_process_info_lem_example :
    (get_process_info files [] (some entries) ≡ (heading ++ output, none))
    × (get_process_info files [] none ≡ (heading, some 1))
unfolding atoi_nonzero
get_process_info_lem_example = get_process_info_lem files [] entries output (
    entry (process init_file refl refl (record { lines = tt; plain = refl; short = omega arith }))
      (entry (other refl) (entry (gone refl refl) nothing)))
