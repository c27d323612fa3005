-- ===== src/Pht/Base.antt =====
-- pht/src/hash-table-base.c: the table without locks. Memory allocation is taken to succeed. A failed
-- `assert` is `none`.
pub mod Lookup
pub mod Entries
use mathlib.Core.Option
use ece344_operating_system.Common.{
  ℕ, zero, suc, ◌%◌, Bool, Option, none, some, List, [], ◌∷◌, ◌++◌, get_elem?, get_or, set,
  replicate,
}
use ece344_operating_system.Pht.Hash.{CString, bernstein_hash}
use ece344_operating_system.Pht.Chain.{
  ListEntry, ListHead, get_list_entry, set_value, insert_head, is_some,
}

abbrev pub hash_table_capacity : ℕ
hash_table_capacity = 4096

-- `entries` is the array of list heads.
pub record HashTable : Type 0 where
  pub entries : List ListHead

unfoldable pub create : HashTable
create = record { entries = replicate hash_table_capacity [] }

unfoldable pub bucket : CString → ℕ
bucket key = bernstein_hash key % hash_table_capacity

unfoldable pub get_list_head : HashTable → CString → ListHead
get_list_head t key = get_or t.entries (bucket key) []

unfoldable pub contains : HashTable → CString → Bool
unfolding get_list_head
contains t key = is_some (get_list_entry (get_list_head t key) key)

-- The chain after `add_entry`: the first entry with the key is written, or a new head is linked.
unfoldable pub add_to_chain : ListHead → CString → ℕ → ListHead
add_to_chain es key value = elim (get_list_entry es key) [
  | some p ↦ set_value es p value
  | none ↦ insert_head es key value
]

unfoldable pub add_entry : HashTable → CString → ℕ → HashTable
unfolding get_list_head
add_entry t key value = record t {
  entries = set t.entries (bucket key) (add_to_chain (get_list_head t key) key value);
}

unfoldable pub get_value : HashTable → CString → Option ℕ
unfolding get_list_head Option.bind
get_value t key =
    let list_head = get_list_head t key in
    Option.map (λ (e : ListEntry). e.value)
      (Option.bind (get_list_entry list_head key) (get_elem? list_head))

-- The `while` loop over one list: the first entry is taken off and freed until the list is empty. The
-- result is the sequence of entries freed.
unfoldable pub free_chain : ListHead → List ListEntry
free_chain [] = []
free_chain (e ∷ es) = e ∷ free_chain es

free_chains : List ListHead → List ListEntry
unfolding free_chain
free_chains [] = []
free_chains (es ∷ rest) = free_chain es ++ free_chains rest

unfoldable pub destroy : HashTable → List ListEntry
unfolding free_chains
destroy t = free_chains t.entries
