-- ===== src/Pht/Tester/Tests.antt =====
-- Numbers read by pht/src/pht-tester.c, and a run of one thread that adds one string.
use mathlib.Core.Option
use ece344_operating_system.Common.{
  true, length, ℕ, ◌*◌, ◌%◌, ◌^◌, ◌<◌, ◌≡◌, refl, ◌⊎◌, none, some, [], ◌∷◌, arith, ◌==◌,
  if◌then◌else◌,
}
use ece344_operating_system.Pht.Hash.{bernstein_hash, str_eq}
use ece344_operating_system.Pht.Base
use ece344_operating_system.Pht.Base.{bucket, create, get_list_head}
use ece344_operating_system.Pht.Locked.{init, lock, ends, link, publish, unlock}
use ece344_operating_system.Pht.V1
use ece344_operating_system.Pht.Tester.{
  parse_uint32_t, get_global_index, read_string, count_missing, missing_base, generate_strings,
  generate, get_string,
}
use ece344_operating_system.Pht.Tester.Parse.{parse_uint32_t_lem}
use ece344_operating_system.Pht.Tester.Indices.{get_global_index-IsInjective}
use ece344_operating_system.Pht.Tester.Letters.{all_letters, generate-all_letters}
use ece344_operating_system.Pht.Tester.Missing.{missing_base_lem}
use ece344_operating_system.Pht.Tester.Threads.{
  Run, RunStep, next_call, inside, ReachRun, created, stepped, IsJoined,
}
use ece344_operating_system.Pht.Tester.Threads.Joined.{run-count_missing, run_progress}

program : Unit {0}
unfolding init get_list_head create bucket bernstein_hash str_eq read_string
program = tt

-- UINT32_MAX, and the number behind it.
parse_max :
    parse_uint32_t (b'4' ∷ b'2' ∷ b'9' ∷ b'4' ∷ b'9' ∷ b'6' ∷ b'7' ∷ b'2' ∷ b'9' ∷ b'5' ∷ [])
    ≡ some 4294967295
unfolding parse_uint32_t
parse_max = refl

parse_uint32_t_lem_example :
    parse_uint32_t (b'4' ∷ b'2' ∷ b'9' ∷ b'4' ∷ b'9' ∷ b'6' ∷ b'7' ∷ b'2' ∷ b'9' ∷ b'6' ∷ []) ≡ none
parse_uint32_t_lem_example =
    parse_uint32_t_lem (b'4' ∷ b'2' ∷ b'9' ∷ b'4' ∷ b'9' ∷ b'6' ∷ b'7' ∷ b'2' ∷ b'9' ∷ b'6' ∷ [])

get_global_index-IsInjective_example :
    (get_global_index 25000 3 24999 < 4 * 25000 % 2 ^ 32)
    × (get_global_index 25000 3 24999 ≡ get_global_index 25000 2 7
        → (◌≡◌ {A = ℕ} 3 2) × (◌≡◌ {A = ℕ} 24999 7))
get_global_index-IsInjective_example =
    get_global_index-IsInjective 4 25000 (omega arith) 3 24999 2 7 (omega arith) (omega arith)
      (omega arith) (omega arith)

-- The second string, where rand counts by fives.
generated_lem :
    Option.map (λ made. get_string made 1) (generate (λ n. n * 5) 1 2)
    ≡ some (b'j' ∷ b'o' ∷ b't' ∷ b'y' ∷ b'D' ∷ b'I' ∷ b'N' ∷ [])
unfolding generate read_string
generated_lem = refl

generate-all_letters_example :
    (bytes : ℕ → ℕ) × (generate (λ n. n * 5) 1 2 ≡ some bytes)
    × (all_letters (get_string bytes 1) ≡ true)
    × (length (get_string bytes 1) ≡ 7)
generate-all_letters_example =
    generate-all_letters (λ n. n * 5) 1 2 0 1 (omega arith) (omega arith) (omega arith)

missing_base_lem_example : missing_base (generate_strings (λ n. n * 5) 2 3).bytes 2 3 ≡ 0
missing_base_lem_example = missing_base_lem (generate_strings (λ n. n * 5) 2 3).bytes 2 3

-- The bytes of one string.
abbrev one_string : ℕ → ℕ
one_string a = if a == 0 then b'a' else 0

-- A state that one thread with one string reaches in the first version.
record Reached : Type 0 where
  last : Run
  reach : ReachRun V1.mutex_of one_string 1 1 last

abbrev in_call : Reached
unfolding program
in_call = record {
  last = _;
  reach = stepped created (next_call 0 (omega arith) refl (omega arith));
}

abbrev finished : Reached
unfolding program
finished = record {
  last = _;
  reach =
      stepped
        (stepped
          (stepped
            (stepped
              (stepped in_call.reach (inside _ (lock 0 (b'a' ∷ []) 0 (omega arith) refl refl) refl))
              (inside _ (ends 0 (b'a' ∷ []) 0 0 (omega arith) refl refl) refl))
            (inside _ (link 0 (b'a' ∷ []) 0 (omega arith) refl) refl))
          (inside _ (publish 0 (b'a' ∷ []) 0 [] (omega arith) refl) refl))
        (inside _ (unlock 0 (b'a' ∷ []) 0 (omega arith) refl) refl);
}

finished-IsJoined : IsJoined V1.mutex_of one_string 1 1 finished.last
unfolding program
finished-IsJoined i lt = (ground (arith, lt), ground (arith, lt))

run-count_missing_example :
    count_missing one_string 1 1 (Base.contains finished.last.system.table) ≡ 0
run-count_missing_example = run-count_missing finished.reach finished-IsJoined

run_progress_example :
    ((t : Run) × RunStep V1.mutex_of one_string 1 1 in_call.last t)
    ⊎ IsJoined V1.mutex_of one_string 1 1 in_call.last
run_progress_example = run_progress in_call.reach
