-- ===== src/Pht/Tester.antt =====
-- pht/src/pht-tester.c: the numbers that it reads, the strings that it makes, and its runs.
pub mod Letters
mod Tests
pub mod Threads
pub mod Loops
pub mod Indices
pub mod Missing
pub mod Parse
use mathlib.Core.Option
use ece344_operating_system.Common.{
  ℕ, zero, suc, ◌+◌, ◌-◌, ◌*◌, ◌%◌, ◌^◌, Bool, true, false, not, ◌&&◌, ◌||◌, Option, none, some,
  List, [], ◌∷◌, ltb, leb, ◌==◌, if◌then◌else◌,
}
use ece344_operating_system.Common.Family.{update}
use ece344_operating_system.Pht.Hash.{CString}
use ece344_operating_system.Pht.Base
use ece344_operating_system.Pht.Base.{HashTable}

-- What `exit (EINVAL)` is decided by, at character `c` with `i` characters before it: more than ten
-- characters, no digit, or a number that passes UINT32_MAX.
abbrev pub is_refused : (current i c : ℕ) → Bool
is_refused current i c =
    i == 10
    || (ltb c 0x30 || ltb 0x39 c)
    || (i == 9 && (ltb 429496729 current || (current == 429496729 && ltb 5 (c - 0x30))))

-- The loop, on the rest of the string. `none` is the exit.
unfoldable pub parse_loop : CString → (i current : ℕ) → Option ℕ
parse_loop [] i current = some current
parse_loop (c ∷ string) i current =
    let rest = parse_loop string (suc i) ((current * 10 + (c - 0x30)) % 2 ^ 32) in
    if c == 0 then some current else (if is_refused current i c then none else rest)

unfoldable pub parse_uint32_t : CString → Option ℕ
unfolding parse_loop
parse_uint32_t string = parse_loop string 0 0

pub record Arguments : Type 0 where
  pub threads : ℕ
  pub size : ℕ

-- An option with its argument. Other keys change nothing.
unfoldable pub parse_opt : (key : ℕ) → (arg : CString) → Arguments → Option Arguments
unfolding parse_uint32_t
parse_opt key arg arguments =
    if key == b't'
    then Option.map (λ n. record arguments { threads = n }) (parse_uint32_t arg)
    else (if key == b's'
        then Option.map (λ n. record arguments { size = n }) (parse_uint32_t arg)
        else some arguments)

-- for (i = ...; ...; ++i), with the rounds that are left.
unfoldable pub for_each {ℓ} : {S : Type ℓ} → (rounds i : ℕ) → (ℕ → S → S) → S → S
for_each zero i body s = s
for_each (suc rounds) i body s = for_each rounds (suc i) body (body i s)

abbrev pub bytes_per_string : ℕ
bytes_per_string = 8

-- The product and the sum are those of uint32_t.
abbrev pub get_global_index : (size thread index : ℕ) → ℕ
get_global_index size thread index = (thread * size + index) % 2 ^ 32

-- A C string in memory, up to its 0.
unfoldable pub read_string : (fuel : ℕ) → (ℕ → ℕ) → (address : ℕ) → CString
read_string zero bytes a = []
read_string (suc fuel) bytes a =
    let rest = read_string fuel bytes (a + 1) in if bytes a == 0 then [] else bytes a ∷ rest

-- The string that starts at `data + global_index * BYTES_PER_STRING`.
abbrev pub get_string : (ℕ → ℕ) → (global_index : ℕ) → CString
get_string bytes global_index = read_string bytes_per_string bytes (global_index * bytes_per_string)

-- The bytes at `data`, of which `size` were allocated, whether all writes so far were inside of them,
-- and how often rand was called.
pub record Memory : Type 0 where
  pub bytes : ℕ → ℕ
  pub size : ℕ
  pub in_bounds : Bool
  pub rands : ℕ

abbrev pub put_byte : (address value : ℕ) → Memory → Memory
put_byte a value m = record m {
  bytes = update m.bytes a value;
  in_bounds = m.in_bounds && ltb a m.size;
}

-- calloc: the product of threads and size is one of uint32_t.
abbrev pub calloc_data : (threads size : ℕ) → Memory
calloc_data threads size = record {
  bytes = λ _. 0;
  size = threads * size % 2 ^ 32 * bytes_per_string;
  in_bounds = true;
  rands = 0;
}

module _ (rand : ℕ → ℕ) where
  abbrev pub letter : (r : ℕ) → ℕ
  letter r = if ltb r 26 then r + 0x41 else r + 0x47

  unfoldable pub set_letter : (address k : ℕ) → Memory → Memory
  set_letter a k m =
      put_byte (a + k) (letter (rand m.rands % 52)) (record m { rands = m.rands + 1 })

  unfoldable pub set_string : (address : ℕ) → Memory → Memory
  unfolding for_each set_letter
  set_string a m =
      let letters = for_each (bytes_per_string - 1) 0 (set_letter a) m in
      put_byte (a + (bytes_per_string - 1)) 0 letters

  -- The loops over threads and strings.
  unfoldable pub generate_strings : (threads size : ℕ) → Memory
  unfolding for_each set_string
  generate_strings threads size =
      for_each threads 0
        (λ i. for_each size 0 (λ j. set_string (get_global_index size i j * bytes_per_string)))
        (calloc_data threads size)

  -- The bytes at `data`, none if a write was out of bounds.
  unfoldable pub generate : (threads size : ℕ) → Option (ℕ → ℕ)
  unfolding generate_strings
  generate threads size =
      let made = generate_strings threads size in if made.in_bounds then some made.bytes else none

module _ (bytes : ℕ → ℕ) (threads size : ℕ) where
  unfoldable pub fill_base : HashTable → HashTable
  unfolding for_each
  fill_base = for_each threads 0 (λ i. for_each size 0 (λ j t.
      let global_index = get_global_index size i j in
      Base.add_entry t (get_string bytes global_index) global_index))

  -- How many strings a table does not contain.
  unfoldable pub count_missing : (contains : CString → Bool) → ℕ
  unfolding for_each
  count_missing contains =
      for_each threads 0
        (λ i. for_each size 0 (λ j missing.
          if not (contains (get_string bytes (get_global_index size i j)))
          then missing + 1
          else missing))
        0

-- The number that main prints for the table without locks.
unfoldable pub missing_base : (bytes : ℕ → ℕ) → (threads size : ℕ) → ℕ
unfolding fill_base count_missing
missing_base bytes threads size =
    count_missing bytes threads size (Base.contains (fill_base bytes threads size Base.create))
