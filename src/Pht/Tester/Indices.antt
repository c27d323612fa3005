-- ===== src/Pht/Tester/Indices.antt =====
-- Where the strings of pht/src/pht-tester.c stand.
use ece344_operating_system.Common.{ℕ, ◌+◌, ◌*◌, ◌%◌, ◌^◌, ◌<◌, ◌≡◌, ap, ◌∙◌, sym, arith, dec_lt}
use ece344_operating_system.Pht.Tester.{get_global_index}

row_end : (i j threads size : ℕ) → i < threads → j < size → i * size + j < threads * size
row_end i j threads size lt below = grind (arith, lt, below)

same_place :
    (i j k l size : ℕ) → j < size → l < size → i * size + j ≡ k * size + l → (i ≡ k) × (j ≡ l)
same_place i j k l size lj ll e = elim (dec_lt i k) [
  | yes lt ↦ absurd (omega (arith, row_end i j k size lt lj, e))
  | no ge ↦ elim (dec_lt k i) [
    | yes lt ↦ absurd (omega (arith, row_end k l i size lt ll, e))
    | no le ↦
        let same : i ≡ k = omega (arith, ge, le) in
        (same, omega (arith, e, ap (λ x. x * size) same))
  ]
]

-- Without overflow of the product, the strings of the threads lie side by side.
module _ (threads size : ℕ) where
  get_global_index_lem :
      threads * size < 2 ^ 32
      → (i j : ℕ) → i < threads
      → j < size
      → get_global_index size i j ≡ i * size + j
  get_global_index_lem small i j lt below =
      let inside : i * size + j < threads * size = row_end i j threads size lt below in
      omega (arith, inside, small)

  -- Each string has its index, below the number of the strings that are allocated, and no two of them
  -- have the same, if the number of the strings is below 2 ^ 32.
  pub get_global_index-IsInjective :
      threads * size < 2 ^ 32
      → (i j k l : ℕ) → i < threads
      → j < size
      → k < threads
      → l < size
      → (get_global_index size i j < threads * size % 2 ^ 32)
        × (get_global_index size i j ≡ get_global_index size k l → (i ≡ k) × (j ≡ l))
  get_global_index-IsInjective small i j k l li lj lk ll =
      let a = get_global_index_lem small i j li lj in
      let b = get_global_index_lem small k l lk ll in
      (
        omega (arith, a, small, row_end i j threads size li lj),
        λ e. same_place i j k l size lj ll (sym a ∙ e ∙ b),
      )
