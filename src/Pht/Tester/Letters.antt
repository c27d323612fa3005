-- ===== src/Pht/Tester/Letters.antt =====
-- The strings that pht/src/pht-tester.c makes.
use ece344_operating_system.Common.{
  ℕ, zero, suc, ◌+◌, ◌*◌, ◌%◌, ◌^◌, ◌<◌, ◌≤◌, ◌≡◌, refl, subst, ap, Bool, some, true, false, ◌&&◌,
  ◌||◌, [], ◌∷◌, leb, ◌==◌, arith, length,
}
use ece344_operating_system.Pht.Hash.{CString}
use ece344_operating_system.Pht.Tester.{
  get_global_index, get_string, read_string, for_each, Memory, letter, set_letter, set_string,
  calloc_data, generate_strings, generate,
}
use ece344_operating_system.Pht.Tester.Indices.{get_global_index-IsInjective}
use ece344_operating_system.Pht.Tester.Loops.{for_each-rounds, for_each-keeps, for_each-does}

-- A to Z, or a to z.
abbrev pub is_letter : ℕ → Bool
is_letter c = leb 0x41 c && leb c 0x5A || (leb 0x61 c && leb c 0x7A)

abbrev pub all_letters : CString → Bool
all_letters [] = true
all_letters (c ∷ s) = is_letter c && all_letters s

letter-is_letter : (rand : ℕ → ℕ) (r : ℕ) → is_letter (letter rand (r % 52)) ≡ true
letter-is_letter rand r = ground arith

-- Seven letters and a 0.
record IsMade (bytes : ℕ → ℕ) (a : ℕ) : Type 0 where
  letters : (k : ℕ) → k < 7 → is_letter (bytes (a + k)) ≡ true
  ends : bytes (a + 7) ≡ 0

letter-nonzero : (c : ℕ) → is_letter c ≡ true → (c == 0) ≡ false
letter-nonzero c h = ground (arith, h)

-- `n` letters before a 0 are the string.
read_string-letters :
    (bytes : ℕ → ℕ) (n a : ℕ)
    → ((k : ℕ) → k < n → is_letter (bytes (a + k)) ≡ true)
    → bytes (a + n) ≡ 0
    → (all_letters (read_string (suc n) bytes a) ≡ true)
      × (length (read_string (suc n) bytes a) ≡ n)
unfolding read_string
read_string-letters bytes zero a letters ends =
    let here : (bytes a == 0) ≡ true = ground (arith, ends) in rw here (refl, refl)
read_string-letters bytes (suc n) a letters ends =
    let first : is_letter (bytes a) ≡ true =
      subst (λ x. is_letter (bytes x) ≡ true) (omega arith) (letters 0 (omega arith)) in
    let (rest, size) =
      read_string-letters bytes n (a + 1)
        (λ k lt.
          subst (λ x. is_letter (bytes x) ≡ true) (omega arith)
            (letters (suc k) (omega (arith, lt))))
        (subst (λ x. bytes x ≡ 0) (omega arith) ends) in
    rw (letter-nonzero (bytes a) first, first) (rest, ap suc size)

module _ (rand : ℕ → ℕ) where
  set_string-IsMade : (a : ℕ) (m : Memory) → IsMade (set_string rand a m).bytes a
  unfolding set_string set_letter
  set_string-IsMade a m = record {
    letters = λ k lt.
        let made =
          for_each-does (λ _. Unit {0}) (λ k t. is_letter (t.bytes (a + k)) ≡ true)
            (set_letter rand a) (λ j t h. tt)
            (λ j t h. ground (arith, letter-is_letter rand (rand t.rands)))
            (λ j k t _ h. ground (arith, h, letter-is_letter rand (rand t.rands))) 7 0 m tt k
            (omega arith) (omega (arith, lt)) in
        ground (arith, lt, made);
    ends = ground arith;
  }

  -- A string at another multiple of 8 is not touched.
  set_string-other :
      (g h : ℕ) (m : Memory)
      → IsMade m.bytes (h * 8)
      → IsMade (set_string rand (g * 8) m).bytes (h * 8)
  unfolding set_string set_letter
  set_string-other g h m made =
      let kept =
        for_each-rounds (λ t. IsMade t.bytes (h * 8)) 7 0 (set_letter rand (g * 8)) m
          (λ k from below t (old : IsMade t.bytes (h * 8)). record {
            letters =
                λ l lt. ground (arith, old.letters l lt, letter-is_letter rand (rand t.rands));
            ends = ground (arith, below, old.ends);
          })
          made in
      record {
        letters = λ l lt. ground (arith, lt, kept.letters l lt);
        ends = ground (arith, kept.ends);
      }

  abbrev MadeAt : (size i j : ℕ) → Memory → Type 0
  MadeAt size i j m = IsMade m.bytes (get_global_index size i j * 8)

  abbrev make : (size i j : ℕ) → Memory → Memory
  make size i j = set_string rand (get_global_index size i j * 8)

  made_letters :
      (threads size i j : ℕ)
      → i < threads
      → j < size
      → let made = (generate_strings rand threads size).bytes in
        (all_letters (get_string made (get_global_index size i j)) ≡ true)
        × (length (get_string made (get_global_index size i j)) ≡ 7)
  unfolding generate_strings
  made_letters threads size i j li lj =
      let made =
        for_each-does (λ _. Unit {0}) (λ i m. (j : ℕ) → j < size → MadeAt size i j m)
          (λ i. for_each size 0 (make size i)) (λ i m h. tt)
          (λ i m h j lt.
            for_each-does (λ _. Unit {0}) (MadeAt size i) (make size i) (λ j m h. tt)
              (λ j m h. set_string-IsMade (get_global_index size i j * 8) m)
              (λ k j m h.
                set_string-other (get_global_index size i k) (get_global_index size i j) m)
              size 0 m tt j (omega arith) (omega (arith, lt)))
          (λ l i m h old j lt.
            for_each-keeps (MadeAt size i j) size 0 (make size l) m
              (λ k m. set_string-other (get_global_index size l k) (get_global_index size i j) m)
              (old j lt))
          threads 0 (calloc_data threads size) tt i (omega arith) (omega (arith, li)) j lj in
      read_string-letters _ 7 (get_global_index size i j * 8) made.letters made.ends

  -- The allocation has this size, and no write was outside of it.
  abbrev IsInside : ℕ → Memory → Type 0
  IsInside size m = (m.size ≡ size) × (m.in_bounds ≡ true)

  set_string-IsInside :
      (size a : ℕ) (m : Memory)
      → a + 8 ≤ size
      → IsInside size m
      → IsInside size (set_string rand a m)
  unfolding set_string set_letter
  set_string-IsInside size a m room h =
      let kept =
        for_each-rounds (IsInside size) 7 0 (set_letter rand a) m
          (λ k from below t (old : IsInside size t).
            (old.0, ground (arith, old.0, old.1, below, room)))
          h in
      (kept.0, ground (arith, kept.0, kept.1, room))

  generate_strings-IsInside :
      (threads size : ℕ)
      → threads * size < 2 ^ 32
      → IsInside (threads * size * 8) (generate_strings rand threads size)
  unfolding generate_strings
  generate_strings-IsInside threads size few =
      for_each-rounds (IsInside (threads * size * 8)) threads 0 (λ i. for_each size 0 (make size i))
        (calloc_data threads size)
        (λ i _ li m old.
          for_each-rounds (IsInside (threads * size * 8)) size 0 (make size i) m
            (λ j _ lj t inside.
              set_string-IsInside (threads * size * 8) (get_global_index size i j * 8) t
                (let index =
                    get_global_index-IsInjective threads size few i j i j (omega (arith, li))
                      (omega (arith, lj)) (omega (arith, li)) (omega (arith, lj)) in
                  omega (arith, index.0, few))
                inside)
            old)
        (omega (arith, few), refl)

  -- Where the strings are fewer than 2 ^ 32, all writes are inside of the allocation, and each thread
  -- has its strings of seven letters, whatever rand gives.
  pub generate-all_letters :
      (threads size i j : ℕ)
      → threads * size < 2 ^ 32
      → i < threads
      → j < size
      → (bytes : ℕ → ℕ) × (generate rand threads size ≡ some bytes)
        × (all_letters (get_string bytes (get_global_index size i j)) ≡ true)
        × (length (get_string bytes (get_global_index size i j)) ≡ 7)
  unfolding generate
  generate-all_letters threads size i j few li lj =
      let (letters, seven) = made_letters threads size i j li lj in
      (
        (generate_strings rand threads size).bytes,
        rw ((generate_strings-IsInside threads size few).1) refl,
        letters,
        seven,
      )
