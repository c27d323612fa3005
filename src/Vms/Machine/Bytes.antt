-- ===== src/Vms/Machine/Bytes.antt =====
-- Reads and writes of the memory of vms/src.
use ece344_operating_system.Common.{
  ℕ, zero, suc, ◌+◌, ◌-◌, ◌/◌, ◌%◌, ◌^◌, ◌≤◌, ◌<◌, ◌≡◌, refl, sym, ap, ◌∙◌, ◌⊎◌, inl, inr, true,
  arith, dec_lt,
}
use native.Mathlib.Nat.{pow-suc}
use ece344_operating_system.Common.Family.{update}
use ece344_operating_system.Vms.Machine.{
  page_size, Machine, ok, load_bytes, store_bytes, is_mapped, load, store, copy_bytes, copy_page,
  zero_bytes, zero_page,
}

-- `n` bytes from `a` on, and `k` from `b` on, have none in common.
abbrev pub IsSeparate : (a n b k : ℕ) → Type 0
IsSeparate a n b k = (a + n ≤ b) ⊎ (b + k ≤ a)

pub zero_bytes-inside :
    (page a : ℕ) (m : ℕ → ℕ) → page ≤ a → a < page + page_size → zero_bytes page m a ≡ 0
zero_bytes-inside page a m p q = ground (arith, p, q)

pub zero_bytes-outside :
    (page a : ℕ) (m : ℕ → ℕ) → IsSeparate page page_size a 1 → zero_bytes page m a ≡ m a
zero_bytes-outside page a m h = ground (arith, h)

-- Bytes that are zero already stay as they are.
pub zero_bytes-of_zeros :
    (page : ℕ) (m : ℕ → ℕ)
    → ((offset : ℕ) → offset < page_size → m (page + offset) ≡ 0)
    → (a : ℕ) → zero_bytes page m a ≡ m a
zero_bytes-of_zeros page m zeros a = elim (dec_lt a page) [
  | yes below ↦ zero_bytes-outside page a m (inr (omega (arith, below)))
  | no p ↦ elim (dec_lt a (page + page_size)) [
    | no q ↦ zero_bytes-outside page a m (inl (omega (arith, q)))
    | yes q ↦
        let offset : page + (a - page) ≡ a = omega (arith, p) in
        zero_bytes-inside page a m (omega (arith, p)) q
        ∙ sym (zeros (a - page) (omega (arith, p, q)))
        ∙ ap m offset
  ]
]

pub copy_bytes-inside :
    (to from offset : ℕ) (m : ℕ → ℕ)
    → offset < page_size
    → copy_bytes to from m (to + offset) ≡ m (from + offset)
copy_bytes-inside to from offset m h =
    let back : to + offset - to ≡ offset = omega arith in ground (arith, h, back)

pub copy_bytes-outside :
    (to from a : ℕ) (m : ℕ → ℕ) → IsSeparate to page_size a 1 → copy_bytes to from m a ≡ m a
copy_bytes-outside to from a m h = ground (arith, h)

pub store_bytes-outside :
    (n a v x : ℕ) (m : ℕ → ℕ) → IsSeparate a n x 1 → store_bytes n a v m x ≡ m x
unfolding store_bytes
store_bytes-outside zero a v x m h = refl
store_bytes-outside (suc n) a v x m h =
    store_bytes-outside n (suc a) (v / 256) x (update m a (v % 256)) (ground (arith, h))
    ∙ ground (arith, h)

pub load_bytes-same :
    (n a : ℕ) (m l : ℕ → ℕ)
    → ((x : ℕ) → a ≤ x → x < a + n → m x ≡ l x)
    → load_bytes n a m ≡ load_bytes n a l
unfolding load_bytes
load_bytes-same zero a m l h = refl
load_bytes-same (suc n) a m l h = omega (
  arith,
  h a (omega arith) (omega arith),
  load_bytes-same n (suc a) m l (λ x p q. h x (omega (arith, p)) (omega (arith, q))),
)

pub load_bytes-store_apart :
    (n a k b v : ℕ) (m : ℕ → ℕ)
    → IsSeparate a n b k
    → load_bytes n a (store_bytes k b v m) ≡ load_bytes n a m
load_bytes-store_apart n a k b v m h =
    load_bytes-same n a (store_bytes k b v m) m
      (λ x p q. store_bytes-outside k b v x m (ground (arith, h, p, q)))

-- What was stored is loaded, if it fits.
pub load_bytes-store_bytes :
    (n a v : ℕ) (m : ℕ → ℕ) → v < 256 ^ n → load_bytes n a (store_bytes n a v m) ≡ v
unfolding load_bytes store_bytes
load_bytes-store_bytes zero a v m h = omega (arith, h)
load_bytes-store_bytes (suc n) a v m h =
    let lowest : store_bytes n (suc a) (v / 256) (update m a (v % 256)) a ≡ v % 256 =
      store_bytes-outside n (suc a) (v / 256) a (update m a (v % 256)) (inr (omega arith))
      ∙ ground arith in
    let fits : v / 256 < 256 ^ n = omega (arith, h, pow-suc 256 n) in
    omega (arith, lowest, load_bytes-store_bytes n (suc a) (v / 256) (update m a (v % 256)) fits)

module _ (s : Machine) where
  pub load-mapped : (n a : ℕ) → is_mapped s a n ≡ true → load n a s ≡ ok (load_bytes n a s.memory) s
  unfolding load
  load-mapped n a h = rw (load, h) refl

  pub store-mapped :
      (n a v : ℕ)
      → is_mapped s a n ≡ true
      → store n a v s ≡ ok tt (record s { memory = store_bytes n a v s.memory })
  unfolding store
  store-mapped n a v h = rw (store, h) refl

  pub zero_page-mapped :
      (page : ℕ)
      → is_mapped s page page_size ≡ true
      → zero_page page s ≡ ok tt (record s { memory = zero_bytes page s.memory })
  unfolding zero_page
  zero_page-mapped page h = rw (zero_page, h) refl

  pub copy_page-mapped :
      (to from : ℕ)
      → is_mapped s to page_size ≡ true
      → is_mapped s from page_size ≡ true
      → copy_page to from s ≡ ok tt (record s { memory = copy_bytes to from s.memory })
  unfolding copy_page
  copy_page-mapped to from p q = rw (copy_page, p, q) refl
