-- ===== src/Pht/Locked/Invariant/Fields.antt =====
-- A step of a thread keeps each field of the invariant.
use ece344_operating_system.Common.{
  ℕ, suc, ◌+◌, ◌<◌, ◌≡◌, refl, ap, ◌∙◌, none, some, arith, ℕ_discrete,
}
use ece344_operating_system.Common.Family.{
  update, All-update, sum_over, sum_over-update, sum_over-zero,
}
use ece344_operating_system.Pht.Hash.{CString}
use ece344_operating_system.Pht.Chain.{ListHead}
use ece344_operating_system.Pht.Base.{bucket, get_list_head, add_entry}
use ece344_operating_system.Pht.Locked.{
  Pc, idle, locking, walking, found, linking, unlocking, System, store_head, init, Step, call, lock,
  differs, matches, ends, assign, link, publish, unlock, Reach, start, later,
}
use ece344_operating_system.Pht.Locked.Search.{Passed-suc, get_list_entry-hit, get_list_entry-end}
use ece344_operating_system.Pht.Locked.Invariant.Defs.{
  holding, IsFresh, replay, pending, weigh, Inv, IsFresh-store, store_head-assign,
  store_head-insert,
}

module _ {mutex_of : ℕ → ℕ} {n : ℕ} {s : System} (inv : Inv mutex_of n s) where
  Step-owner :
      {t : System}
      → Step mutex_of n s t
      → (j : ℕ) (q : CString) → holding (t.pc j) ≡ some q
      → t.mutex (mutex_of (bucket q)) ≡ some j
  Step-owner (call i k v lt e) j q h = ground (arith, inv.owner j q)
  Step-owner (lock i k v lt e free) j q h = ground (arith, inv.owner j q)
  Step-owner (differs i k v p d lt e at ne) j q h = ground (arith, inv.owner j q)
  Step-owner (matches i k v p d lt e at eq) j q h = ground (arith, inv.owner j q)
  Step-owner (ends i k v p lt e at) j q h = ground (arith, inv.owner j q)
  Step-owner (assign i k v p lt e) j q h = ground (arith, inv.owner j q)
  Step-owner (link i k v lt e) j q h = ground (arith, inv.owner j q)
  Step-owner (publish i k v rest lt e) j q h = ground (arith, inv.owner j q)
  Step-owner (unlock i k v lt e) j q h = ground (arith, inv.owner j q, inv.owner i k)

  Step-linear : {t : System} → Step mutex_of n s t → t.table ≡ replay t.writes
  Step-linear (call i k v lt e) = inv.linear
  Step-linear (lock i k v lt e free) = inv.linear
  Step-linear (differs i k v p d lt e at ne) = inv.linear
  Step-linear (matches i k v p d lt e at eq) = inv.linear
  Step-linear (ends i k v p lt e at) = inv.linear
  Step-linear (assign i k v p lt e) =
      store_head-assign s.table k v p (rw e at (inv.fresh i)) ∙ ap (λ t. add_entry t k v) inv.linear
  Step-linear (link i k v lt e) = inv.linear
  Step-linear (publish i k v rest lt e) =
      let f : IsFresh s.table (linking k v rest) = rw e at (inv.fresh i) in
      store_head-insert s.table k v rest f.0 f.1 ∙ ap (λ t. add_entry t k v) inv.linear
  Step-linear (unlock i k v lt e) = inv.linear

  -- The thread that moves keeps its key, and the mutexes stay.
  held_moved :
      (i : ℕ) (k : CString) (p : Pc)
      → holding (s.pc i) ≡ some k
      → holding p ≡ some k
      → (m j : ℕ) → s.mutex m ≡ some j
      → (q : CString) × (j < n) × (holding (update s.pc i p j) ≡ some q) × (mutex_of (bucket q) ≡ m)
  held_moved i k p before after m j h =
      let (q, lt, hq, eq) = inv.held m j h in (q, lt, ground arith, eq)

  Step-held :
      {t : System}
      → Step mutex_of n s t
      → (m j : ℕ) → t.mutex m ≡ some j
      → (q : CString) × (j < n) × (holding (t.pc j) ≡ some q) × (mutex_of (bucket q) ≡ m)
  Step-held (call i k v lt e) m j h =
      let (q, jn, hq, eq) = inv.held m j h in (q, jn, ground arith, eq)
  Step-held (lock i k v lt e free) m j h = elim (ℕ_discrete (mutex_of (bucket k)) m) [
    | yes same ↦ (k, ground arith, ground arith, same)
    | no other ↦ let (q, jn, hq, eq) = inv.held m j (ground arith) in (q, jn, ground arith, eq)
  ]
  Step-held (differs i k v p d lt e at ne) m j h =
      held_moved i k (walking k v (suc p)) (rw e) refl m j h
  Step-held (matches i k v p d lt e at eq) m j h =
      held_moved i k (found k v (some p)) (rw e) refl m j h
  Step-held (ends i k v p lt e at) m j h = held_moved i k (found k v none) (rw e) refl m j h
  Step-held (assign i k v p lt e) m j h = held_moved i k (unlocking k v) (rw e) refl m j h
  Step-held (link i k v lt e) m j h = held_moved i k (linking k v _) (rw e) refl m j h
  Step-held (publish i k v rest lt e) m j h = held_moved i k (unlocking k v) (rw e) refl m j h
  Step-held (unlock i k v lt e) m j h =
      let (q, jn, hq, eq) = inv.held m j (ground arith) in (q, jn, ground arith, eq)

  -- The other threads' locals stay fresh when the table stays.
  IsFresh-moved :
      (i : ℕ) (p : Pc) → IsFresh s.table p → (j : ℕ) → IsFresh s.table (update s.pc i p j)
  IsFresh-moved i p f = All-update (IsFresh s.table) s.pc i p f (λ j _. inv.fresh j)

  -- They stay fresh when the thread that holds the bucket's mutex writes the bucket.
  IsFresh-written :
      (i : ℕ) (k : CString) (v : ℕ) (es : ListHead)
      → holding (s.pc i) ≡ some k
      → (j : ℕ) → IsFresh (store_head s.table k es) (update s.pc i (unlocking k v) j)
  IsFresh-written i k v es h =
      All-update (IsFresh (store_head s.table k es)) s.pc i (unlocking k v) tt λ j other.
        IsFresh-store s.table k es (s.pc j)
          (λ q hq same. other (ground (arith, inv.owner i k, inv.owner j q))) (inv.fresh j)

  Step-IsFresh : {t : System} → Step mutex_of n s t → (j : ℕ) → IsFresh t.table (t.pc j)
  Step-IsFresh (call i k v lt e) = IsFresh-moved i (locking k v) tt
  Step-IsFresh (lock i k v lt e free) = IsFresh-moved i (walking k v 0) tt
  Step-IsFresh (differs i k v p d lt e at ne) =
      let f : IsFresh s.table (walking k v p) = rw e at (inv.fresh i) in
      IsFresh-moved i (walking k v (suc p)) (Passed-suc (get_list_head s.table k) k p d f at ne)
  Step-IsFresh (matches i k v p d lt e at eq) =
      let f : IsFresh s.table (walking k v p) = rw e at (inv.fresh i) in
      IsFresh-moved i (found k v (some p))
        (get_list_entry-hit (get_list_head s.table k) k p d f at eq)
  Step-IsFresh (ends i k v p lt e at) =
      let f : IsFresh s.table (walking k v p) = rw e at (inv.fresh i) in
      IsFresh-moved i (found k v none) (get_list_entry-end (get_list_head s.table k) k p f at)
  Step-IsFresh (assign i k v p lt e) = IsFresh-written i k v _ (rw e)
  Step-IsFresh (link i k v lt e) =
      let f : IsFresh s.table (found k v none) = rw e at (inv.fresh i) in
      IsFresh-moved i (linking k v (get_list_head s.table k)) (f, refl)
  Step-IsFresh (publish i k v rest lt e) = IsFresh-written i k v _ (rw e)
  Step-IsFresh (unlock i k v lt e) = IsFresh-moved i idle tt

  moved_weight :
      (w : CString → ℕ → ℕ) (i : ℕ) (p : Pc)
      → i < n
      → sum_over (pending w) n (update s.pc i p) + pending w (s.pc i)
        ≡ sum_over (pending w) n s.pc + pending w p
  moved_weight w i p lt = sum_over-update (pending w) n s.pc i p lt

  Step-counted :
      {t : System}
      → Step mutex_of n s t
      → (w : CString → ℕ → ℕ) → weigh w t.calls ≡ weigh w t.writes + sum_over (pending w) n t.pc
  Step-counted (call i k v lt e) w =
      omega (arith, inv.counted w, moved_weight w i (locking k v) lt, ap (pending w) e)
  Step-counted (lock i k v lt e free) w =
      omega (arith, inv.counted w, moved_weight w i (walking k v 0) lt, ap (pending w) e)
  Step-counted (differs i k v p d lt e at ne) w =
      omega (arith, inv.counted w, moved_weight w i (walking k v (suc p)) lt, ap (pending w) e)
  Step-counted (matches i k v p d lt e at eq) w =
      omega (arith, inv.counted w, moved_weight w i (found k v (some p)) lt, ap (pending w) e)
  Step-counted (ends i k v p lt e at) w =
      omega (arith, inv.counted w, moved_weight w i (found k v none) lt, ap (pending w) e)
  Step-counted (assign i k v p lt e) w =
      omega (arith, inv.counted w, moved_weight w i (unlocking k v) lt, ap (pending w) e)
  Step-counted (link i k v lt e) w = omega (
    arith,
    inv.counted w,
    moved_weight w i (linking k v (get_list_head s.table k)) lt,
    ap (pending w) e,
  )
  Step-counted (publish i k v rest lt e) w =
      omega (arith, inv.counted w, moved_weight w i (unlocking k v) lt, ap (pending w) e)
  Step-counted (unlock i k v lt e) w =
      omega (arith, inv.counted w, moved_weight w i idle lt, ap (pending w) e)

  -- Every step keeps the invariant.
  pub Step-Inv : {t : System} → Step mutex_of n s t → Inv mutex_of n t
  Step-Inv st = record {
    linear = Step-linear st;
    owner = Step-owner st;
    held = Step-held st;
    fresh = Step-IsFresh st;
    counted = Step-counted st;
  }

init-Inv : (mutex_of : ℕ → ℕ) (n : ℕ) → Inv mutex_of n init
unfolding init
init-Inv mutex_of n = record {
  linear = refl;
  owner = λ i k h. absurd (cc);
  held = λ m i h. absurd (cc);
  fresh = λ i. tt;
  counted = λ w. omega (arith, sum_over-zero (pending w) n (λ _. idle) (λ i. refl));
}

-- It holds in every state that the threads reach.
pub Reach-Inv : {mutex_of : ℕ → ℕ} {n : ℕ} {s : System} → Reach mutex_of n s → Inv mutex_of n s
Reach-Inv {mutex_of} {n} start = init-Inv mutex_of n
Reach-Inv (later r st) = Step-Inv (Reach-Inv r) st
