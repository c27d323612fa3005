-- ===== src/Pht/Base/Entries.antt =====
-- Where entries stand in the table of pht/src/hash-table-base.c, and what `destroy` frees.
use ece344_operating_system.Common.{
  ℕ, zero, suc, ◌+◌, ◌≤◌, ◌<◌, ◌≡◌, ◌≢◌, refl, ◌∙◌, List, [], ◌∷◌, arith, true, if◌then◌else◌,
  Option-cases, inl, inr, length, get_or, set, replicate, get_or-set_self, get_or-set_ne,
  get_or-replicate, ℕ_discrete, length-append,
}
use ece344_operating_system.Pht.Hash.{CString, str_eq}
use ece344_operating_system.Pht.Chain.{
  ListHead, get_list_entry, insert_head, is_some, count, count-set_value, count-insert_head,
  length-set_value,
}
use ece344_operating_system.Pht.Base.{
  HashTable, hash_table_capacity, create, bucket, get_list_head, contains, add_to_chain, add_entry,
  free_chain, free_chains, destroy,
}
use ece344_operating_system.Pht.Base.Lookup.{
  IsSized, bucket-lt, bucket-str_eq, create-IsSized, add_entry-IsSized,
}

-- The array has its size, a key stands at most once in a bucket, and only in the one it hashes to.
pub record IsValid (t : HashTable) : Type 0 where
  pub sized : IsSized t
  pub once : (q : CString) (i : ℕ) → count q (get_or t.entries i []) ≤ 1
  pub placed : (q : CString) (i : ℕ) → bucket q ≢ i → count q (get_or t.entries i []) ≡ 0

-- A new table is well formed.
pub create-IsValid : IsValid create
unfolding create count
create-IsValid = record {
  sized = create-IsSized;
  once = λ q i. rw get_or-replicate (omega arith);
  placed = λ q i n. rw get_or-replicate;
}

count-add_to_chain :
    (es : ListHead) (k q : CString) (v : ℕ) → count q es ≤ 1 → count q (add_to_chain es k v) ≤ 1
unfolding add_to_chain
count-add_to_chain es k q v h = elim (Option-cases (get_list_entry es k)) [
  | inl e ↦ rw (e, add_to_chain) (count-insert_head es k q v e h)
  | inr (p, e) ↦ rw (e, add_to_chain) (omega (arith, count-set_value es q p v))
]

count-add_to_chain_other :
    (es : ListHead) (k q : CString) (v : ℕ)
    → (str_eq k q ≡ true → ⊥)
    → count q (add_to_chain es k v) ≡ count q es
unfolding add_to_chain insert_head count
count-add_to_chain_other es k q v h = elim (Option-cases (get_list_entry es k)) [
  | inl e ↦ rw (e, add_to_chain) (ground arith)
  | inr (p, e) ↦ rw (e, add_to_chain) (count-set_value es q p v)
]

-- An add keeps the table well formed: in particular no key ever has two entries.
pub add_entry-IsValid :
    (t : HashTable) (k : CString) (v : ℕ) → IsValid t → IsValid (add_entry t k v)
unfolding add_entry get_list_head
add_entry-IsValid t k v valid = record {
  sized = add_entry-IsSized t k v valid.sized;
  once = once;
  placed = placed;
}
  where
    old : ListHead
    old = get_or t.entries (bucket k) []

    new : ListHead
    new = add_to_chain old k v

    once : (q : CString) (i : ℕ) → count q (get_or (set t.entries (bucket k) new) i []) ≤ 1
    once q i = elim (ℕ_discrete (bucket k) i) [
      | yes e ↦
          rw
            (
              ← e,
              get_or-set_self t.entries (bucket k) new [] (omega (arith, valid.sized, bucket-lt k)),
            )
            (count-add_to_chain old k q v (valid.once q (bucket k)))
      | no n ↦ rw (get_or-set_ne t.entries (bucket k) i new [] n) (valid.once q i)
    ]

    placed :
        (q : CString) (i : ℕ)
        → bucket q ≢ i
        → count q (get_or (set t.entries (bucket k) new) i []) ≡ 0
    placed q i ne = elim (ℕ_discrete (bucket k) i) [
      | yes e ↦
          rw
            (
              ← e,
              get_or-set_self t.entries (bucket k) new [] (omega (arith, valid.sized, bucket-lt k)),
            )
            (count-add_to_chain_other old k q v (λ s. omega (arith, bucket-str_eq k q s))
              ∙ valid.placed q (bucket k) (omega arith))
      | no n ↦ rw (get_or-set_ne t.entries (bucket k) i new [] n) (valid.placed q i ne)
    ]

free_chain_lem : (es : ListHead) → free_chain es ≡ es
unfolding free_chain
free_chain_lem [] = refl
free_chain_lem (e ∷ es) = rw (free_chain_lem es)

length-free_chains-set :
    (bs : List ListHead) (i : ℕ) (es : ListHead)
    → i < length bs
    → length (free_chains (set bs i es)) + length (get_or bs i [])
      ≡ length (free_chains bs) + length es
unfolding free_chains
length-free_chains-set [] i es h = absurd (omega arith)
length-free_chains-set (b ∷ bs) zero es h = simp (free_chain_lem, length-append) (omega arith)
length-free_chains-set (b ∷ bs) (suc i) es h =
    simp (free_chain_lem, length-append)
      (omega (arith, length-free_chains-set bs i es (omega arith)))

length-add_to_chain :
    (es : ListHead) (k : CString) (v : ℕ)
    → length (add_to_chain es k v)
      ≡ (if is_some (get_list_entry es k) then length es else length es + 1)
unfolding add_to_chain insert_head
length-add_to_chain es k v = elim (Option-cases (get_list_entry es k)) [
  | inl e ↦ rw (e, add_to_chain) (omega arith)
  | inr (p, e) ↦ rw (e, add_to_chain) (length-set_value es p v)
]

free_chains-replicate : (n : ℕ) → free_chains (replicate n []) ≡ []
unfolding free_chains free_chain
free_chains-replicate zero = refl
free_chains-replicate (suc n) = free_chains-replicate n

-- `destroy` of a new table frees no entry.
pub destroy-create : destroy create ≡ []
unfolding destroy create
destroy-create = free_chains-replicate hash_table_capacity

-- An add makes `destroy` free one entry more if its key was absent, and as many otherwise: every
-- entry that is allocated is freed, once.
pub length-destroy-add_entry :
    (t : HashTable) (k : CString) (v : ℕ)
    → IsSized t
    → length (destroy (add_entry t k v))
      ≡ (if contains t k then length (destroy t) else length (destroy t) + 1)
unfolding destroy add_entry contains get_list_head
length-destroy-add_entry t k v h =
    let i = bucket k in
    let es : ListHead = get_or t.entries (bucket k) [] in
    ground (
      arith,
      bucket-lt k,
      length-free_chains-set t.entries (bucket k) (add_to_chain es k v),
      length-add_to_chain es k v,
    )
