-- ===== src/Pht/Locked.antt =====
-- The table of pht/src/hash-table-v1.c and pht/src/hash-table-v2.c under threads that call the two
-- versions' `add_entry`. The versions differ in the mutex that guards a bucket: `mutex_of` gives its
-- number, and is a parameter here. A step of a thread is one access to shared memory or one call of
-- a mutex operation, which is taken not to fail.
pub mod Search
pub mod Invariant
pub mod Safety
pub mod Progress
use ece344_operating_system.Common.{
  ℕ, zero, suc, ◌<◌, ◌≡◌, Bool, true, false, Option, none, some, List, [], ◌∷◌, get_elem?, set,
}
use ece344_operating_system.Common.Family.{update}
use ece344_operating_system.Pht.Hash.{CString, str_eq}
use ece344_operating_system.Pht.Chain.{ListEntry, ListHead, set_value, insert_head}
use ece344_operating_system.Pht.Base.{HashTable, create, bucket, get_list_head}

-- Where a thread stands in `add_entry`, with its arguments and the locals that are live.
pub data Pc : Type 0 where
  -- not in a call
  idle : Pc
  -- before `pthread_mutex_lock`
  locking : (key : CString) (value : ℕ) → Pc
  -- in the loop of `get_list_entry`, at the entry with this position
  walking : (key : CString) (value : ℕ) (position : ℕ) → Pc
  -- after the loop, with the pointer that it returned
  found : (key : CString) (value : ℕ) (entry : Option ℕ) → Pc
  -- in SLIST_INSERT_HEAD, with the list that the new entry points to
  linking : (key : CString) (value : ℕ) (rest : ListHead) → Pc
  -- before `pthread_mutex_unlock`
  unlocking : (key : CString) (value : ℕ) → Pc

-- A mutex holds the thread that locked it. `calls` and `writes` are histories: the adds that were
-- called, and those that have changed the table, the latest first.
pub record System : Type 0 where
  pub table : HashTable
  pub mutex : ℕ → Option ℕ
  pub pc : ℕ → Pc
  pub calls : List (CString × ℕ)
  pub writes : List (CString × ℕ)

-- The list head of the key's bucket is given anew.
abbrev pub store_head : HashTable → CString → ListHead → HashTable
store_head t k es = record t { entries = set t.entries (bucket k) es }

-- After `create`: no mutex is held, and no thread is in a call.
unfoldable pub init : System
init = record { table = create; mutex = λ _. none; pc = λ _. Pc.idle; calls = []; writes = [] }

module _ (mutex_of : ℕ → ℕ) (n : ℕ) (s : System) where
  -- A step of thread `i`, one of `n`.
  pub data Step : System → Type 0 where
    call :
        (i : ℕ) (k : CString) (v : ℕ)
        → i < n
        → s.pc i ≡ Pc.idle
        → Step (record s { pc = update s.pc i (Pc.locking k v); calls = (k, v) ∷ s.calls })
    lock :
        (i : ℕ) (k : CString) (v : ℕ)
        → i < n
        → s.pc i ≡ Pc.locking k v
        → s.mutex (mutex_of (bucket k)) ≡ none
        → Step (record s {
          mutex = update s.mutex (mutex_of (bucket k)) (some i);
          pc = update s.pc i (Pc.walking k v 0);
        })
    differs :
        (i : ℕ) (k : CString) (v p : ℕ) (e : ListEntry)
        → i < n
        → s.pc i ≡ Pc.walking k v p
        → get_elem? (get_list_head s.table k) p ≡ some e
        → str_eq e.key k ≡ false
        → Step (record s { pc = update s.pc i (Pc.walking k v (suc p)) })
    matches :
        (i : ℕ) (k : CString) (v p : ℕ) (e : ListEntry)
        → i < n
        → s.pc i ≡ Pc.walking k v p
        → get_elem? (get_list_head s.table k) p ≡ some e
        → str_eq e.key k ≡ true
        → Step (record s { pc = update s.pc i (Pc.found k v (some p)) })
    ends :
        (i : ℕ) (k : CString) (v p : ℕ)
        → i < n
        → s.pc i ≡ Pc.walking k v p
        → get_elem? (get_list_head s.table k) p ≡ none
        → Step (record s { pc = update s.pc i (Pc.found k v none) })
    assign :
        (i : ℕ) (k : CString) (v p : ℕ)
        → i < n
        → s.pc i ≡ Pc.found k v (some p)
        → Step (record s {
          table = store_head s.table k (set_value (get_list_head s.table k) p v);
          pc = update s.pc i (Pc.unlocking k v);
          writes = (k, v) ∷ s.writes;
        })
    link :
        (i : ℕ) (k : CString) (v : ℕ)
        → i < n
        → s.pc i ≡ Pc.found k v none
        → Step (record s { pc = update s.pc i (Pc.linking k v (get_list_head s.table k)) })
    publish :
        (i : ℕ) (k : CString) (v : ℕ) (rest : ListHead)
        → i < n
        → s.pc i ≡ Pc.linking k v rest
        → Step (record s {
          table = store_head s.table k (insert_head rest k v);
          pc = update s.pc i (Pc.unlocking k v);
          writes = (k, v) ∷ s.writes;
        })
    unlock :
        (i : ℕ) (k : CString) (v : ℕ)
        → i < n
        → s.pc i ≡ Pc.unlocking k v
        → Step (record s {
          mutex = update s.mutex (mutex_of (bucket k)) none;
          pc = update s.pc i Pc.idle;
        })

pub data Reach (mutex_of : ℕ → ℕ) (n : ℕ) : System → Type 0 where
  start : Reach mutex_of n init
  later : {s t : System} → Reach mutex_of n s → Step mutex_of n s t → Reach mutex_of n t
