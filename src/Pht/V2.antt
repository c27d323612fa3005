-- ===== src/Pht/V2.antt =====
-- pht/src/hash-table-v2.c: each bucket has a mutex of its own. Its `get_hash_table_entry`, which reads
-- nothing that a thread changes, runs before the lock; the rest is as in the other versions.
-- `contains` and `get_value` take no lock.
use ece344_operating_system.Common.{
  ℕ, ◌<◌, ◌≡◌, Bool, Option, some, List, ◌⊎◌, inl, inr, Option-cases, arith,
}
use ece344_operating_system.Pht.Hash.{CString}
use ece344_operating_system.Pht.Chain.{ListEntry}
use ece344_operating_system.Pht.Base
use ece344_operating_system.Pht.Base.{bucket}
use ece344_operating_system.Pht.Locked
use ece344_operating_system.Pht.Locked.{System, Pc}
use ece344_operating_system.Pht.Locked.Invariant.{holding, Reach-Inv}
use ece344_operating_system.Pht.Locked.Safety.{mutual_exclusion}

-- hash_table_entry->mutex of the bucket.
abbrev pub mutex_of : ℕ → ℕ
mutex_of index = index

unfoldable pub create : System
create = Locked.init

unfoldable pub contains : System → CString → Bool
contains s key = Base.contains s.table key

unfoldable pub get_value : System → CString → Option ℕ
get_value s key = Base.get_value s.table key

unfoldable pub destroy : System → List ListEntry
destroy s = Base.destroy s.table

-- A step of one of `n` threads that call `add_entry`.
abbrev pub Step : ℕ → System → System → Type 0
Step = Locked.Step mutex_of

abbrev pub Reach : ℕ → System → Type 0
Reach = Locked.Reach mutex_of

-- Two threads are never between lock and unlock of one bucket together.
pub one_thread_in_bucket :
    {n : ℕ} {s : System}
    → Reach n s
    → (i j : ℕ) (k q : CString) → holding (s.pc i) ≡ some k
    → holding (s.pc j) ≡ some q
    → bucket k ≡ bucket q
    → i ≡ j
one_thread_in_bucket r i j k q hi hj same = mutual_exclusion r i j k q hi hj same

-- A thread that is about to lock can do so at once, unless a thread is inside the same bucket:
-- adds to other buckets never hold it up.
pub waits_for_bucket :
    {n : ℕ} {s : System}
    → Reach n s
    → (i : ℕ) (k : CString) (v : ℕ) → i < n
    → s.pc i ≡ Pc.locking k v
    → ((t : System) × Step n s t × (t.pc i ≡ Pc.walking k v 0))
      ⊎ ((j : ℕ) × (q : CString) × (holding (s.pc j) ≡ some q) × (bucket q ≡ bucket k))
waits_for_bucket {n} {s} r i k v lt e = elim (Option-cases (s.mutex (bucket k))) [
  | inl free ↦ inl (_, Locked.Step.lock i k v lt e free, ground arith)
  | inr (j, taken) ↦
      let (q, _, hq, same) = (Reach-Inv r).held (bucket k) j taken in inr (j, q, hq, same)
]
