-- ===== src/Vms/Pages.antt =====
-- vms/src/pages.c: the physical pages.
pub mod Valid
pub mod Free
use ece344_operating_system.Common.{
  ℕ, zero, suc, ◌+◌, ◌-◌, ◌*◌, ◌/◌, ◌%◌, ◌^◌, Bool, true, false, not, Option, none, some, ltb, ◌==◌,
}
use ece344_operating_system.Common.Family.{update}
use ece344_operating_system.Common.Int.{ℤ, pos, negsuc}
use ece344_operating_system.Vms.Machine.{
  page_size, max_pages, Machine, Outcome, ok, exited, fault, M, pure, ◌>>=◌, ◌>>◌, check, zero_page,
}

unfoldable pub vms_get_page_pointer : Machine → ℕ → ℕ
vms_get_page_pointer s index = s.base_pointer + index * page_size

-- A number that is converted to a 32-bit int.
abbrev pub to_int : ℕ → ℤ
to_int n = elim (ltb (n % 2 ^ 32) (2 ^ 31)) [
  | true ↦ pos (n % 2 ^ 32)
  | false ↦ negsuc (2 ^ 32 - 1 - n % 2 ^ 32)
]

unfoldable pub vms_get_page_index : Machine → ℕ → ℤ
vms_get_page_index s pointer = to_int ((pointer + (2 ^ 64 - s.base_pointer)) % 2 ^ 64 / page_size)

unfoldable pub check_page_aligned : ℕ → M (Unit {0})
check_page_aligned pointer = check (pointer % page_size == 0)

-- The index of an array of `max_pages` elements; another one is a bad access.
unfoldable pub array_index : ℤ → M ℕ
array_index (negsuc i) s = fault
array_index (pos i) s = elim (ltb i max_pages) [ true ↦ ok i s | false ↦ fault ]

-- Before `vms_init`, with the memory that the mapping will show.
abbrev pub started : ℕ → Machine
started base = record {
  memory = λ _. 0;
  base_pointer = base;
  allocated = λ _. false;
  used_pages = 0;
  root_page_table = 0;
  ref_track = λ _. 0;
}

-- With what `sysconf` and `mmap` give, and the `errno` of a failed `mmap`. The mapping is anonymous,
-- so it holds zeros.
unfoldable pub vms_init :
    (system_page_size : ℕ) (mapped : Option ℕ) (errno : ℕ) → Outcome (Unit {0})
unfolding check_page_aligned
vms_init system_page_size none errno =
    (do check (system_page_size == page_size); λ _. exited errno) (started 0)
vms_init system_page_size (some base) errno =
    (do check (system_page_size == page_size); check_page_aligned base) (started base)

-- The loop of `vms_new_page` from `i`, with the rounds that are left.
unfoldable pub find_free : ℕ → ℕ → Machine → Option ℕ
find_free zero i s = none
find_free (suc rounds) i s = elim (s.allocated i) [
  | true ↦ find_free rounds (suc i) s
  | false ↦ some i
]

abbrev pub enomem : ℕ
enomem = 12

unfoldable pub vms_new_page : M ℕ
unfolding find_free vms_get_page_pointer
vms_new_page s = elim (find_free max_pages 0 s) [
  | none ↦ exited enomem
  | some i ↦
      ok (vms_get_page_pointer s i)
        (record s { allocated = update s.allocated i true; used_pages = s.used_pages + 1 })
]

unfoldable pub vms_free_page : ℕ → M (Unit {0})
unfolding check_page_aligned array_index vms_get_page_index
vms_free_page pointer s =
    (do
      check_page_aligned pointer
      i ← array_index (vms_get_page_index s pointer)
      check (s.allocated i)
      release i
      zero_page pointer
      count_down)
      s
  where
    release : ℕ → M (Unit {0})
    release i t = ok tt (record t { allocated = update t.allocated i false })

    count_down : M (Unit {0})
    count_down t = ok tt (record t { used_pages = t.used_pages - 1 })

unfoldable pub vms_get_used_pages : Machine → ℕ
vms_get_used_pages s = s.used_pages
