-- ===== src/Pht/Locked/Progress.antt =====
-- The threads of pht/src/hash-table-v1.c and hash-table-v2.c do not block one another for good.
use ece344_operating_system.Common.{
  ℕ, ◌<◌, ◌≡◌, ◌≢◌, refl, none, some, inl, inr, Option-cases, Bool-cases, get_elem?,
}
use ece344_operating_system.Pht.Hash.{CString, str_eq}
use ece344_operating_system.Pht.Base.{bucket, get_list_head}
use ece344_operating_system.Pht.Locked.{
  Pc, idle, locking, walking, found, linking, unlocking, System, Step, lock, differs, matches, ends,
  assign, link, publish, unlock, Reach,
}
use ece344_operating_system.Pht.Locked.Invariant.{holding, Reach-Inv}

-- A step that is no new call.
abbrev pub Advance : (ℕ → ℕ) → ℕ → System → Type 0
Advance mutex_of n s = (t : System) × Step mutex_of n s t × (t.calls ≡ s.calls)

module _ (mutex_of : ℕ → ℕ) (n : ℕ) (s : System) where
  holder_advances :
      (i : ℕ) (p : Pc) {k : CString}
      → i < n
      → s.pc i ≡ p
      → holding p ≡ some k
      → Advance mutex_of n s
  holder_advances i idle lt e h = absurd (cc)
  holder_advances i (locking k v) lt e h = absurd (cc)
  holder_advances i (walking k v p) lt e h =
      elim (Option-cases (get_elem? (get_list_head s.table k) p)) [
        | inl none_left ↦ (_, ends i k v p lt e none_left, refl)
        | inr (d, at) ↦ elim (Bool-cases (str_eq d.key k)) [
          | inl same ↦ (_, matches i k v p d lt e at same, refl)
          | inr other ↦ (_, differs i k v p d lt e at other, refl)
        ]
      ]
  holder_advances i (found k v none) lt e h = (_, link i k v lt e, refl)
  holder_advances i (found k v (some p)) lt e h = (_, assign i k v p lt e, refl)
  holder_advances i (linking k v rest) lt e h = (_, publish i k v rest lt e, refl)
  holder_advances i (unlocking k v) lt e h = (_, unlock i k v lt e, refl)

-- There is no deadlock: while a thread is in a call, some thread can take a step.
pub no_deadlock :
    {mutex_of : ℕ → ℕ} {n : ℕ} {s : System}
    → Reach mutex_of n s
    → (i : ℕ) → i < n
    → s.pc i ≢ idle
    → Advance mutex_of n s
no_deadlock {mutex_of} {n} {s} r i lt busy = go (s.pc i) refl
  where
    go : (p : Pc) → s.pc i ≡ p → Advance mutex_of n s
    go idle e = absurd (busy e)
    go (locking k v) e = elim (Option-cases (s.mutex (mutex_of (bucket k)))) [
      | inl free ↦ (_, lock i k v lt e free, refl)
      | inr (j, taken) ↦
          let (q, jn, hq, _) = (Reach-Inv r).held (mutex_of (bucket k)) j taken in
          holder_advances mutex_of n s j (s.pc j) jn refl hq
    ]
    go (walking k v p) e = holder_advances mutex_of n s i (walking k v p) lt e refl
    go (found k v o) e = holder_advances mutex_of n s i (found k v o) lt e refl
    go (linking k v rest) e = holder_advances mutex_of n s i (linking k v rest) lt e refl
    go (unlocking k v) e = holder_advances mutex_of n s i (unlocking k v) lt e refl
