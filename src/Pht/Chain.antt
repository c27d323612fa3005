-- ===== src/Pht/Chain.antt =====
-- One bucket of the table in pht/src/hash-table-base.c: a singly linked list of entries. A pointer
-- to an entry is its position in the list.
use mathlib.Core.Option
use ece344_operating_system.Common.{
  ℕ, zero, suc, ◌+◌, ◌≤◌, ◌≡◌, refl, Bool, true, false, Option, none, some, List, [], ◌∷◌, arith,
  if◌then◌else◌, length, get_elem?,
}
use ece344_operating_system.Pht.Hash.{CString, str_eq, str_eq_symm, str_eq_congr}

pub record ListEntry : Type 0 where
  pub key : CString
  pub value : ℕ

abbrev pub ListHead : Type 0
ListHead = List ListEntry

unfoldable pub get_list_entry : ListHead → CString → Option ℕ
get_list_entry [] key = none
get_list_entry (e ∷ es) key =
    let rest = get_list_entry es key in if str_eq e.key key then some 0 else Option.map suc rest

-- list_entry->value = value
unfoldable pub set_value : ListHead → ℕ → ℕ → ListHead
set_value [] p v = []
set_value (e ∷ es) zero v = record e { value = v } ∷ es
set_value (e ∷ es) (suc p) v = e ∷ set_value es p v

-- SLIST_INSERT_HEAD of a new entry with these fields
unfoldable pub insert_head : ListHead → CString → ℕ → ListHead
insert_head es k v = record { key = k; value = v } ∷ es

-- What the chain holds under a key, and how often.
unfoldable pub find : CString → ListHead → Option ℕ
find q [] = none
find q (e ∷ es) = if str_eq e.key q then some e.value else find q es

abbrev to_nat : Bool → ℕ
to_nat true = 1
to_nat false = 0

unfoldable pub count : CString → ListHead → ℕ
count q [] = 0
count q (e ∷ es) = to_nat (str_eq e.key q) + count q es

-- The entry that the loop stops at holds the chain's value for the key.
pub get_list_entry-find :
    (es : ListHead) (q : CString)
    → Option.map (λ (e : ListEntry). e.value) (Option.bind (get_list_entry es q) (get_elem? es))
      ≡ find q es
unfolding get_list_entry find Option.bind
get_list_entry-find [] q = refl
get_list_entry-find (e ∷ es) q = ground (arith, get_list_entry-find es q)

pub get_list_entry-eq-none :
    (es : ListHead) (q : CString) → get_list_entry es q ≡ none → find q es ≡ none
unfolding get_list_entry find
get_list_entry-eq-none [] q h = refl
get_list_entry-eq-none (e ∷ es) q h = ground (arith, get_list_entry-eq-none es q)

abbrev pub is_some {ℓ} : {A : Type ℓ} → Option A → Bool
is_some none = false
is_some (some _) = true

pub get_list_entry-is_some :
    (es : ListHead) (q : CString) → is_some (get_list_entry es q) ≡ is_some (find q es)
unfolding get_list_entry find
get_list_entry-is_some [] q = refl
get_list_entry-is_some (e ∷ es) q = ground (arith, get_list_entry-is_some es q)

pub find-set_value :
    (es : ListHead) (k q : CString) (p v : ℕ)
    → get_list_entry es k ≡ some p
    → find q (set_value es p v) ≡ (if str_eq k q then some v else find q es)
unfolding get_list_entry find set_value
find-set_value [] k q p v h = absurd (cc)
find-set_value (e ∷ es) k q zero v h = ground (arith, str_eq_congr e.key k q)
find-set_value (e ∷ es) k q (suc p) v h = ground (
  arith,
  find-set_value es k q p v,
  str_eq_symm k e.key,
  str_eq_symm q e.key,
  str_eq_congr k q e.key,
)

pub find-insert_head :
    (es : ListHead) (k q : CString) (v : ℕ)
    → find q (insert_head es k v) ≡ (if str_eq k q then some v else find q es)
unfolding find insert_head
find-insert_head es k q v = refl

pub count-set_value :
    (es : ListHead) (q : CString) (p v : ℕ) → count q (set_value es p v) ≡ count q es
unfolding count set_value
count-set_value [] q p v = refl
count-set_value (e ∷ es) q zero v = refl
count-set_value (e ∷ es) q (suc p) v = omega (arith, count-set_value es q p v)

pub length-set_value : (es : ListHead) (p v : ℕ) → length (set_value es p v) ≡ length es
unfolding set_value
length-set_value [] p v = refl
length-set_value (e ∷ es) zero v = refl
length-set_value (e ∷ es) (suc p) v = omega (arith, length-set_value es p v)

pub count-eq-zero :
    (es : ListHead) (k q : CString)
    → get_list_entry es k ≡ none
    → str_eq k q ≡ true
    → count q es ≡ 0
unfolding get_list_entry count
count-eq-zero [] k q h same = refl
count-eq-zero (e ∷ es) k q h same =
    ground (
      arith,
      count-eq-zero es k q,
      str_eq_symm k e.key,
      str_eq_symm q e.key,
      str_eq_congr k q e.key,
    )

-- A new entry whose key was absent leaves each key at most once in the chain.
pub count-insert_head :
    (es : ListHead) (k q : CString) (v : ℕ)
    → get_list_entry es k ≡ none
    → count q es ≤ 1
    → count q (insert_head es k v) ≤ 1
unfolding count insert_head
count-insert_head es k q v h few = ground (arith, count-eq-zero es k q)
