-- ===== src/Vms/Machine.antt =====
-- The state of vms/src: the memory of the process, and the static variables of pages.c, mmu.c and
-- vms.c. Runs of the code, and its accesses to memory.
pub mod Bytes
pub mod Runs
use ece344_operating_system.Common.{
  ℕ, zero, suc, ◌+◌, ◌-◌, ◌*◌, ◌/◌, ◌%◌, Bool, true, false, ◌&&◌, leb, ltb,
}
use ece344_operating_system.Common.Family.{update}

abbrev pub page_size : ℕ
page_size = 4096

abbrev pub max_pages : ℕ
max_pages = 256

-- `memory` has a byte at each address, but only the bytes of the mapping at `base_pointer` can be
-- used.
pub record Machine : Type 0 where
  pub memory : ℕ → ℕ
  pub base_pointer : ℕ
  pub allocated : ℕ → Bool
  pub used_pages : ℕ
  pub root_page_table : ℕ
  pub ref_track : ℕ → ℕ

-- A run: a value and the new state, a failed `assert`, `exit` with a code, or a bad access.
pub data Outcome (A : Type 0) : Type 0 where
  ok : A → Machine → Outcome A
  aborted : Outcome A
  exited : (code : ℕ) → Outcome A
  fault : Outcome A

abbrev pub M : Type 0 → Type 0
M A = Machine → Outcome A

abbrev pub pure : {A : Type 0} → A → M A
pure a s = ok a s

abbrev pub bind_outcome : {A B : Type 0} → Outcome A → (A → M B) → Outcome B
bind_outcome (ok a s) f = f a s
bind_outcome aborted f = aborted
bind_outcome (exited code) f = exited code
bind_outcome fault f = fault

infixl 5 ◌>>=◌ ◌>>◌
abbrev pub ◌>>=◌ : {A B : Type 0} → M A → (A → M B) → M B
◌>>=◌ m f s = bind_outcome (m s) f

abbrev pub ◌>>◌ : {B : Type 0} → M (Unit {0}) → M B → M B
m >> k = m >>= λ _. k

-- assert
abbrev pub check : Bool → M (Unit {0})
check true s = ok tt s
check false s = aborted

-- `n` bytes from `a` on, the lowest first.
unfoldable pub load_bytes : ℕ → ℕ → (ℕ → ℕ) → ℕ
load_bytes zero a m = 0
load_bytes (suc n) a m = m a + load_bytes n (suc a) m * 256

unfoldable pub store_bytes : ℕ → ℕ → ℕ → (ℕ → ℕ) → ℕ → ℕ
store_bytes zero a v m = m
store_bytes (suc n) a v m = store_bytes n (suc a) (v / 256) (update m a (v % 256))

-- Whether `n` bytes from `a` on are in the mapping.
abbrev pub is_mapped : Machine → ℕ → ℕ → Bool
is_mapped s a n = leb s.base_pointer a && leb (a + n) (s.base_pointer + max_pages * page_size)

unfoldable pub load : ℕ → ℕ → M ℕ
unfolding load_bytes
load n a s = elim (is_mapped s a n) [ true ↦ ok (load_bytes n a s.memory) s | false ↦ fault ]

unfoldable pub store : ℕ → ℕ → ℕ → M (Unit {0})
unfolding store_bytes
store n a v s = elim (is_mapped s a n) [
  | true ↦ ok tt (record s { memory = store_bytes n a v s.memory })
  | false ↦ fault
]

abbrev pub in_page : ℕ → ℕ → Bool
in_page page a = leb page a && ltb a (page + page_size)

abbrev pub copy_bytes : (to from : ℕ) → (ℕ → ℕ) → ℕ → ℕ
copy_bytes to from m a = elim (in_page to a) [ true ↦ m (from + (a - to)) | false ↦ m a ]

-- memcpy (to, from, PAGE_SIZE)
unfoldable pub copy_page : (to from : ℕ) → M (Unit {0})
copy_page to from s = elim (is_mapped s to page_size && is_mapped s from page_size) [
  | true ↦ ok tt (record s { memory = copy_bytes to from s.memory })
  | false ↦ fault
]

abbrev pub zero_bytes : ℕ → (ℕ → ℕ) → ℕ → ℕ
zero_bytes page m a = elim (in_page page a) [ true ↦ 0 | false ↦ m a ]

-- memset (page, 0, PAGE_SIZE)
unfoldable pub zero_page : ℕ → M (Unit {0})
zero_page page s = elim (is_mapped s page page_size) [
  | true ↦ ok tt (record s { memory = zero_bytes page s.memory })
  | false ↦ fault
]

-- An entry of a page table, at its address.
abbrev pub get_entry : ℕ → M ℕ
get_entry entry = load 8 entry

abbrev pub put_entry : ℕ → (ℕ → ℕ) → M (Unit {0})
put_entry entry f = do e ← load 8 entry; store 8 entry (f e)
