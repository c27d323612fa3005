-- ===== src/Pht/V1.antt =====
-- pht/src/hash-table-v1.c: one mutex guards the whole table. Its `get_hash_table_entry` and
-- `get_list_entry` are those of pht/src/hash-table-base.c. `contains` and `get_value` take no lock.
use ece344_operating_system.Common.{ℕ, ◌≡◌, refl, Bool, Option, some, List}
use ece344_operating_system.Pht.Hash.{CString}
use ece344_operating_system.Pht.Chain.{ListEntry}
use ece344_operating_system.Pht.Base
use ece344_operating_system.Pht.Locked
use ece344_operating_system.Pht.Locked.{System}
use ece344_operating_system.Pht.Locked.Invariant.{holding}
use ece344_operating_system.Pht.Locked.Safety.{mutual_exclusion}

-- hash_table->mutex, for every bucket.
abbrev pub mutex_of : ℕ → ℕ
mutex_of index = 0

unfoldable pub create : System
create = Locked.init

unfoldable pub contains : System → CString → Bool
contains s key = Base.contains s.table key

unfoldable pub get_value : System → CString → Option ℕ
get_value s key = Base.get_value s.table key

unfoldable pub destroy : System → List ListEntry
destroy s = Base.destroy s.table

-- A step of one of `n` threads that call `add_entry`.
abbrev pub Step : ℕ → System → System → Type 0
Step = Locked.Step mutex_of

abbrev pub Reach : ℕ → System → Type 0
Reach = Locked.Reach mutex_of

-- Two threads are never between lock and unlock together.
pub one_thread_inside :
    {n : ℕ} {s : System}
    → Reach n s
    → (i j : ℕ) (k q : CString) → holding (s.pc i) ≡ some k
    → holding (s.pc j) ≡ some q
    → i ≡ j
one_thread_inside r i j k q hi hj = mutual_exclusion r i j k q hi hj refl
