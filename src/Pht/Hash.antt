-- ===== src/Pht/Hash.antt =====
-- pht/src/hash-table-common.c, and the comparison of keys by `strcmp`. A C string is the list of its
-- bytes; it ends at its first zero byte, or at the end of the list.
use ece344_operating_system.Common.{
  ℕ, ◌+◌, ◌-◌, ◌*◌, ◌%◌, ◌^◌, ◌<◌, ◌≡◌, refl, Bool, true, false, List, [], ◌∷◌, arith, ltb, ◌==◌,
  if◌then◌else◌,
}

abbrev pub CString : Type 0
CString = List ℕ

abbrev pub u32 : ℕ → ℕ
u32 n = n % 2 ^ 32

-- A `char` is signed on the target: from 128 on its byte stands for a negative number, and the
-- conversion to uint32_t adds 2 ^ 32 to that.
abbrev pub char_to_u32 : ℕ → ℕ
char_to_u32 c = if ltb c 128 then c else c + 2 ^ 32 - 256

hash_loop : ℕ → CString → ℕ
hash_loop hash [] = hash
hash_loop hash (c ∷ s) =
    if c == 0 then hash else hash_loop (u32 (u32 (33 * hash) + char_to_u32 c)) s

unfoldable pub bernstein_hash : CString → ℕ
unfolding hash_loop
bernstein_hash string = hash_loop 0 string

-- strcmp (s, t) == 0
unfoldable pub str_eq : CString → CString → Bool
str_eq [] [] = true
str_eq [] (d ∷ t) = d == 0
str_eq (c ∷ s) [] = c == 0
str_eq (c ∷ s) (d ∷ t) = if c == d then (if c == 0 then true else str_eq s t) else false

pub str_eq_refl : (s : CString) → str_eq s s ≡ true
unfolding str_eq
str_eq_refl [] = refl
str_eq_refl (c ∷ s) = ground (arith, str_eq_refl s)

pub str_eq_symm : (s t : CString) → str_eq s t ≡ str_eq t s
unfolding str_eq
str_eq_symm [] [] = refl
str_eq_symm [] (d ∷ t) = refl
str_eq_symm (c ∷ s) [] = refl
str_eq_symm (c ∷ s) (d ∷ t) = ground (arith, str_eq_symm s t)

pub str_eq_trans : (s t u : CString) → str_eq s t ≡ true → str_eq t u ≡ true → str_eq s u ≡ true
unfolding str_eq
str_eq_trans [] [] u p q = q
str_eq_trans [] (d ∷ t) [] p q = refl
str_eq_trans [] (d ∷ t) (e ∷ u) p q = ground arith
str_eq_trans (c ∷ s) [] [] p q = p
str_eq_trans (c ∷ s) [] (e ∷ u) p q = ground arith
str_eq_trans (c ∷ s) (d ∷ t) [] p q = ground arith
str_eq_trans (c ∷ s) (d ∷ t) (e ∷ u) p q = ground (arith, str_eq_trans s t u)

-- Equal keys are told apart from a third one alike.
pub str_eq_congr : (s t u : CString) → str_eq s t ≡ true → str_eq s u ≡ str_eq t u
str_eq_congr s t u p = ground (arith, str_eq_symm s t, str_eq_trans s t u, str_eq_trans t s u)

hash_loop-str_eq : (h : ℕ) (s t : CString) → str_eq s t ≡ true → hash_loop h s ≡ hash_loop h t
unfolding str_eq hash_loop
hash_loop-str_eq h [] [] p = refl
hash_loop-str_eq h [] (d ∷ t) p = ground arith
hash_loop-str_eq h (c ∷ s) [] p = ground arith
hash_loop-str_eq h (c ∷ s) (d ∷ t) p =
    ground (arith, hash_loop-str_eq (u32 (u32 (33 * h) + char_to_u32 c)) s t)

-- Two keys that `strcmp` finds equal have the same hash, whatever stands behind their terminators.
pub bernstein_hash-str_eq :
    (s t : CString) → str_eq s t ≡ true → bernstein_hash s ≡ bernstein_hash t
unfolding bernstein_hash
bernstein_hash-str_eq s t p = hash_loop-str_eq 0 s t p

-- The polynomial in 33 that the hash is meant to be, with no wrap.
unfoldable pub polynomial : ℕ → CString → ℕ
polynomial acc [] = acc
polynomial acc (c ∷ s) = if c == 0 then acc else polynomial (33 * acc + char_to_u32 c) s

polynomial_mod :
    (a b : ℕ) (s : CString) → u32 a ≡ u32 b → u32 (polynomial a s) ≡ u32 (polynomial b s)
unfolding polynomial
polynomial_mod a b [] p = p
polynomial_mod a b (c ∷ s) p =
    ground (arith, polynomial_mod (33 * a + char_to_u32 c) (33 * b + char_to_u32 c) s)

hash_loop-polynomial : (h : ℕ) (s : CString) → h < 2 ^ 32 → hash_loop h s ≡ u32 (polynomial h s)
unfolding hash_loop polynomial
hash_loop-polynomial h [] p = omega arith
hash_loop-polynomial h (c ∷ s) p = ground (
  arith,
  hash_loop-polynomial (u32 (u32 (33 * h) + char_to_u32 c)) s,
  polynomial_mod (u32 (u32 (33 * h) + char_to_u32 c)) (33 * h + char_to_u32 c) s,
)

-- The wrapping loop computes the polynomial modulo 2 ^ 32.
pub bernstein_hash-polynomial : (s : CString) → bernstein_hash s ≡ u32 (polynomial 0 s)
unfolding bernstein_hash
bernstein_hash-polynomial s = hash_loop-polynomial 0 s (omega arith)
