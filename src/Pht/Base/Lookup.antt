-- ===== src/Pht/Base/Lookup.antt =====
-- What the operations of pht/src/hash-table-base.c mean for a lookup: the table stands for a function
-- from keys to values.
use ece344_operating_system.Common.{
  ℕ, ◌<◌, ◌≡◌, ◌≢◌, true, none, some, [], arith, if◌then◌else◌, Option-cases, inl, inr, length,
  length-set, get_or-set_self, get_or-set_ne, get_or-replicate, length-replicate, ℕ_discrete,
}
use ece344_operating_system.Pht.Hash.{CString, str_eq, bernstein_hash-str_eq}
use ece344_operating_system.Pht.Chain.{
  ListHead, get_list_entry, is_some, find, get_list_entry-find, get_list_entry-is_some,
  find-set_value, find-insert_head,
}
use ece344_operating_system.Pht.Base.{
  HashTable, hash_table_capacity, create, bucket, get_list_head, contains, add_to_chain, add_entry,
  get_value,
}

-- The array has its fixed size.
abbrev pub IsSized : HashTable → Type 0
IsSized t = length t.entries ≡ hash_table_capacity

pub bucket-lt : (k : CString) → bucket k < hash_table_capacity
unfolding bucket
bucket-lt k = omega arith

pub bucket-str_eq : (k q : CString) → str_eq k q ≡ true → bucket k ≡ bucket q
unfolding bucket
bucket-str_eq k q h = rw (bernstein_hash-str_eq k q h)

pub find-add_to_chain :
    (es : ListHead) (k q : CString) (v : ℕ)
    → find q (add_to_chain es k v) ≡ (if str_eq k q then some v else find q es)
unfolding add_to_chain
find-add_to_chain es k q v = elim (Option-cases (get_list_entry es k)) [
  | inl e ↦ rw (e, add_to_chain) (find-insert_head es k q v)
  | inr (p, e) ↦ rw (e, add_to_chain) (find-set_value es k q p v e)
]

pub add_entry-IsSized :
    (t : HashTable) (k : CString) (v : ℕ) → IsSized t → IsSized (add_entry t k v)
unfolding add_entry
add_entry-IsSized t k v h = rw length-set h

pub create-IsSized : IsSized create
unfolding create
create-IsSized = length-replicate {A = ListHead} hash_table_capacity []

pub get_value-find : (t : HashTable) (q : CString) → get_value t q ≡ find q (get_list_head t q)
unfolding get_value get_list_head
get_value-find t q = get_list_entry-find (get_list_head t q) q

-- `contains` answers yes for exactly the keys at which `get_value` does not stop the program.
pub contains-get_value : (t : HashTable) (q : CString) → contains t q ≡ is_some (get_value t q)
unfolding contains
contains-get_value t q = rw get_value-find (get_list_entry-is_some (get_list_head t q) q)

-- A new table has no key.
pub get_value-create : (q : CString) → get_value create q ≡ none
unfolding get_list_head create find
get_value-create q = rw (get_value-find, get_or-replicate)

module _ (t : HashTable) (k q : CString) (v : ℕ) where
  get_list_head-add_entry_same :
      IsSized t
      → bucket k ≡ bucket q
      → get_list_head (add_entry t k v) q ≡ add_to_chain (get_list_head t q) k v
  unfolding get_list_head add_entry
  get_list_head-add_entry_same h e =
      rw e (get_or-set_self t.entries (bucket q) _ [] (omega (arith, bucket-lt q)))

  get_list_head-add_entry_other :
      bucket k ≢ bucket q → get_list_head (add_entry t k v) q ≡ get_list_head t q
  unfolding get_list_head add_entry
  get_list_head-add_entry_other n = get_or-set_ne t.entries (bucket k) (bucket q) _ [] n

  -- After an add the table has the new value under the key and every key that compares equal to it,
  -- and what it had under every other.
  pub get_value-add_entry :
      IsSized t → get_value (add_entry t k v) q ≡ (if str_eq k q then some v else get_value t q)
  get_value-add_entry h = elim (ℕ_discrete (bucket k) (bucket q)) [
    | yes e ↦
        rw
          (get_value-find (add_entry t k v) q, get_value-find t q, get_list_head-add_entry_same h e)
          (find-add_to_chain (get_list_head t q) k q v)
    | no n ↦ ground (
      arith,
      get_value-find (add_entry t k v) q,
      get_value-find t q,
      get_list_head-add_entry_other n,
      bucket-str_eq k q,
    )
  ]
