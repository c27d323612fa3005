-- ===== src/Pht/Locked/Invariant/Defs.antt =====
-- The invariant of the threads, and what a write does to what another thread has read.
use ece344_operating_system.Common.{
  ℕ, ◌+◌, ◌<◌, ◌≡◌, ◌≢◌, refl, Option, none, some, List, [], ◌∷◌, get_or-set_ne,
}
use ece344_operating_system.Common.Family.{sum_over}
use ece344_operating_system.Pht.Hash.{CString}
use ece344_operating_system.Pht.Chain.{ListHead, get_list_entry, set_value, insert_head}
use ece344_operating_system.Pht.Base.{
  HashTable, create, bucket, get_list_head, add_to_chain, add_entry,
}
use ece344_operating_system.Pht.Locked.{
  Pc, idle, locking, walking, found, linking, unlocking, System, store_head,
}
use ece344_operating_system.Pht.Locked.Search.{Passed}

-- Between the return of `pthread_mutex_lock` and the call of `pthread_mutex_unlock`, the key.
abbrev pub holding : Pc → Option CString
holding idle = none
holding (locking k v) = none
holding (walking k v p) = some k
holding (found k v o) = some k
holding (linking k v rest) = some k
holding (unlocking k v) = some k

-- What the locals of a thread say about the table.
abbrev pub IsFresh : HashTable → Pc → Type 0
IsFresh t idle = Unit
IsFresh t (locking k v) = Unit
IsFresh t (walking k v p) = Passed (get_list_head t k) k p
IsFresh t (found k v o) = get_list_entry (get_list_head t k) k ≡ o
IsFresh t (linking k v rest) =
    (get_list_entry (get_list_head t k) k ≡ none) × (rest ≡ get_list_head t k)
IsFresh t (unlocking k v) = Unit

-- The table after adds one at a time, the latest first.
abbrev pub replay : List (CString × ℕ) → HashTable
replay [] = create
replay ((k, v) ∷ adds) = add_entry (replay adds) k v

-- The weight of an add that was called and has not changed the table.
abbrev pub pending : (CString → ℕ → ℕ) → Pc → ℕ
pending w idle = 0
pending w (locking k v) = w k v
pending w (walking k v p) = w k v
pending w (found k v o) = w k v
pending w (linking k v rest) = w k v
pending w (unlocking k v) = 0

abbrev pub weigh : (CString → ℕ → ℕ) → List (CString × ℕ) → ℕ
weigh w [] = 0
weigh w ((k, v) ∷ adds) = w k v + weigh w adds

pub record Inv (mutex_of : ℕ → ℕ) (n : ℕ) (s : System) : Type 0 where
  pub linear : s.table ≡ replay s.writes
  pub owner :
      (i : ℕ) (k : CString) → holding (s.pc i) ≡ some k → s.mutex (mutex_of (bucket k)) ≡ some i
  pub held :
      (m i : ℕ)
      → s.mutex m ≡ some i
      → (k : CString) × (i < n) × (holding (s.pc i) ≡ some k) × (mutex_of (bucket k) ≡ m)
  pub fresh : (i : ℕ) → IsFresh s.table (s.pc i)
  pub counted :
      (w : CString → ℕ → ℕ) → weigh w s.calls ≡ weigh w s.writes + sum_over (pending w) n s.pc

module _ (t : HashTable) (k : CString) (es : ListHead) where
  get_list_head-store_other :
      (q : CString) → bucket k ≢ bucket q → get_list_head (store_head t k es) q ≡ get_list_head t q
  unfolding get_list_head
  get_list_head-store_other q ne = get_or-set_ne t.entries (bucket k) (bucket q) es [] ne

  -- A write to one bucket leaves what was read of another.
  pub IsFresh-store :
      (p : Pc)
      → ((q : CString) → holding p ≡ some q → bucket k ≢ bucket q)
      → IsFresh t p
      → IsFresh (store_head t k es) p
  IsFresh-store idle apart f = tt
  IsFresh-store (locking q v) apart f = tt
  IsFresh-store (walking q v p) apart f = rw (get_list_head-store_other q (apart q refl)) f
  IsFresh-store (found q v o) apart f = rw (get_list_head-store_other q (apart q refl)) f
  IsFresh-store (linking q v rest) apart f = rw (get_list_head-store_other q (apart q refl)) f
  IsFresh-store (unlocking q v) apart f = tt

module _ (t : HashTable) (k : CString) (v : ℕ) where
  pub store_head-assign :
      (p : ℕ)
      → get_list_entry (get_list_head t k) k ≡ some p
      → store_head t k (set_value (get_list_head t k) p v) ≡ add_entry t k v
  unfolding add_entry add_to_chain
  store_head-assign p e = rw (e, add_to_chain)

  pub store_head-insert :
      (rest : ListHead)
      → get_list_entry (get_list_head t k) k ≡ none
      → rest ≡ get_list_head t k
      → store_head t k (insert_head rest k v) ≡ add_entry t k v
  unfolding add_entry add_to_chain
  store_head-insert rest e same = rw (same, e, add_to_chain)
