-- ===== src/Pht/Tester/Missing.antt =====
-- The count of the strings of pht/src/pht-tester.c that a table does not contain.
use ece344_operating_system.Common.{
  ℕ, ◌+◌, ◌<◌, ◌≡◌, refl, ap, ◌∙◌, sym, Bool, true, not, some, if◌then◌else◌, arith, Bool-cases,
  ◌⊎◌, inl, inr,
}
use ece344_operating_system.Pht.Hash.{CString, str_eq, str_eq_refl}
use ece344_operating_system.Pht.Chain.{is_some}
use ece344_operating_system.Pht.Base
use ece344_operating_system.Pht.Base.{HashTable}
use ece344_operating_system.Pht.Base.Lookup.{
  IsSized, create-IsSized, add_entry-IsSized, contains-get_value, get_value-add_entry,
}
use ece344_operating_system.Pht.Tester.{
  get_global_index, get_string, for_each, fill_base, count_missing, missing_base,
}
use ece344_operating_system.Pht.Tester.Loops.{for_each-keeps, for_each-does, for_each-same}

-- A table that contains all strings misses none.
pub count_missing-none :
    (bytes : ℕ → ℕ) (threads size : ℕ) (contains : CString → Bool)
    → ((i j : ℕ)
        → i < threads
        → j < size
        → contains (get_string bytes (get_global_index size i j)) ≡ true)
    → count_missing bytes threads size contains ≡ 0
unfolding count_missing
count_missing-none bytes threads size contains all = for_each-same threads 0 _ 0 (λ i from below.
    for_each-same size 0 _ 0 (λ j start end.
      ap (λ b. if not b then 0 + 1 else 0) (all i j (omega (arith, below)) (omega (arith, end)))))

contains-add_entry :
    (t : HashTable) (k q : CString) (v : ℕ)
    → IsSized t
    → (str_eq k q ≡ true) ⊎ (Base.contains t q ≡ true)
    → Base.contains (Base.add_entry t k v) q ≡ true
contains-add_entry t k q v sized known =
    contains-get_value (Base.add_entry t k v) q
    ∙ ap is_some (get_value-add_entry t k q v sized)
    ∙ known_value known
  where
    known_value :
        (str_eq k q ≡ true) ⊎ (Base.contains t q ≡ true)
        → is_some (if str_eq k q then some v else Base.get_value t q) ≡ true
    known_value (inl e) = rw e refl
    known_value (inr e) = elim (Bool-cases (str_eq k q)) [
      | inl same ↦ rw same refl
      | inr other ↦ rw other (sym (contains-get_value t q) ∙ e)
    ]

module _ (bytes : ℕ → ℕ) (threads size : ℕ) where
  abbrev Has : (i j : ℕ) → HashTable → Type 0
  Has i j t = Base.contains t (get_string bytes (get_global_index size i j)) ≡ true

  abbrev add : (i j : ℕ) → HashTable → HashTable
  add i j t =
      Base.add_entry t (get_string bytes (get_global_index size i j)) (get_global_index size i j)

  row :
      (i : ℕ) (t : HashTable) → IsSized t → (j : ℕ) → j < size → Has i j (for_each size 0 (add i) t)
  row i t sized j lt =
      for_each-does IsSized (Has i) (add i) (λ j t. add_entry-IsSized t _ _)
        (λ j t sized. contains-add_entry t _ _ _ sized (inl (str_eq_refl _)))
        (λ j k t sized h. contains-add_entry t _ _ _ sized (inr h)) size 0 t sized j (omega arith)
        (omega (arith, lt))

  -- The table without locks misses none of the strings, whatever they are.
  pub missing_base_lem : missing_base bytes threads size ≡ 0
  unfolding missing_base fill_base
  missing_base_lem =
      count_missing-none bytes threads size
        (Base.contains (fill_base bytes threads size Base.create))
        (λ i j li lj.
          for_each-does IsSized (λ i t. (j : ℕ) → j < size → Has i j t)
            (λ i. for_each size 0 (add i))
            (λ i t. for_each-keeps IsSized size 0 (add i) t (λ j t. add_entry-IsSized t _ _)) row
            (λ i k t sized h j lt.
              (for_each-keeps (λ t. IsSized t × Has k j t) size 0 (add i) t
                (λ l u (both : IsSized u × Has k j u).
                  (add_entry-IsSized u _ _ both.0, contains-add_entry u _ _ _ both.0 (inr both.1)))
                (sized, h j lt)).1)
            threads 0 Base.create create-IsSized i (omega arith) (omega (arith, li)) j lj)
