-- ===== src/Pht/Locked/Search.antt =====
-- The walk of a thread over a chain, an entry at a time, ends where `get_list_entry` does.
use ece344_operating_system.Common.{
  ℕ, zero, suc, ◌≡◌, refl, true, false, none, some, [], ◌∷◌, arith, get_elem?,
}
use ece344_operating_system.Pht.Hash.{CString, str_eq}
use ece344_operating_system.Pht.Chain.{ListEntry, ListHead, get_list_entry}

-- The first `p` entries are there, and have other keys.
abbrev pub Passed : ListHead → CString → ℕ → Type 0
Passed es k zero = Unit
Passed [] k (suc p) = ⊥
Passed (e ∷ es) k (suc p) = (str_eq e.key k ≡ false) × Passed es k p

pub Passed-suc :
    (es : ListHead) (k : CString) (p : ℕ) (e : ListEntry)
    → Passed es k p
    → get_elem? es p ≡ some e
    → str_eq e.key k ≡ false
    → Passed es k (suc p)
Passed-suc [] k p e h at ne = absurd (cc)
Passed-suc (d ∷ es) k zero e h at ne = ground arith
Passed-suc (d ∷ es) k (suc p) e h at ne = (h.0, Passed-suc es k p e h.1 at ne)

pub get_list_entry-hit :
    (es : ListHead) (k : CString) (p : ℕ) (e : ListEntry)
    → Passed es k p
    → get_elem? es p ≡ some e
    → str_eq e.key k ≡ true
    → get_list_entry es k ≡ some p
unfolding get_list_entry
get_list_entry-hit [] k p e h at eq = absurd (cc)
get_list_entry-hit (d ∷ es) k zero e h at eq = ground arith
get_list_entry-hit (d ∷ es) k (suc p) e h at eq = rw (h.0, get_list_entry-hit es k p e h.1 at eq)

pub get_list_entry-end :
    (es : ListHead) (k : CString) (p : ℕ)
    → Passed es k p
    → get_elem? es p ≡ none
    → get_list_entry es k ≡ none
unfolding get_list_entry
get_list_entry-end [] k p h at = refl
get_list_entry-end (d ∷ es) k zero h at = absurd (cc)
get_list_entry-end (d ∷ es) k (suc p) h at = rw (h.0, get_list_entry-end es k p h.1 at)
