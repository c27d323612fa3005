-- ===== src/Pht/Locked/Safety.antt =====
-- What the threads of pht/src/hash-table-v1.c and hash-table-v2.c can rely on.
use ece344_operating_system.Common.{
  ℕ, ◌≡◌, refl, sym, ap, ◌∙◌, Bool, true, false, ◌||◌, Option, none, some, List, [], ◌∷◌, arith,
  if◌then◌else◌, ◌==◌,
}
use ece344_operating_system.Common.Family.{sum_over-zero}
use ece344_operating_system.Pht.Hash.{CString, str_eq}
use ece344_operating_system.Pht.Chain.{is_some}
use ece344_operating_system.Pht.Base.{bucket, contains, get_value}
use ece344_operating_system.Pht.Base.Lookup.{
  IsSized, create-IsSized, add_entry-IsSized, contains-get_value, get_value-create,
  get_value-add_entry,
}
use ece344_operating_system.Pht.Base.Entries.{IsValid, create-IsValid, add_entry-IsValid}
use ece344_operating_system.Pht.Locked.{Pc, System, Reach}
use ece344_operating_system.Pht.Locked.Invariant.{holding, replay, pending, weigh, Reach-Inv}

-- Two threads hold one mutex only if they are the same thread.
pub mutual_exclusion :
    {mutex_of : ℕ → ℕ} {n : ℕ} {s : System}
    → Reach mutex_of n s
    → (i j : ℕ) (k q : CString) → holding (s.pc i) ≡ some k
    → holding (s.pc j) ≡ some q
    → mutex_of (bucket k) ≡ mutex_of (bucket q)
    → i ≡ j
mutual_exclusion r i j k q hi hj same =
    let inv = Reach-Inv r in ground (arith, inv.owner i k hi, inv.owner j q hj)

-- The value of the latest add whose key compares equal.
abbrev pub last_write : CString → List (CString × ℕ) → Option ℕ
last_write q [] = none
last_write q ((k, v) ∷ adds) = if str_eq k q then some v else last_write q adds

replay-IsSized : (adds : List (CString × ℕ)) → IsSized (replay adds)
replay-IsSized [] = create-IsSized
replay-IsSized ((k, v) ∷ adds) = add_entry-IsSized (replay adds) k v (replay-IsSized adds)

replay-IsValid : (adds : List (CString × ℕ)) → IsValid (replay adds)
replay-IsValid [] = create-IsValid
replay-IsValid ((k, v) ∷ adds) = add_entry-IsValid (replay adds) k v (replay-IsValid adds)

get_value-replay :
    (q : CString) (adds : List (CString × ℕ)) → get_value (replay adds) q ≡ last_write q adds
get_value-replay q [] = get_value-create q
get_value-replay q ((k, v) ∷ adds) =
    rw (get_value-add_entry (replay adds) k q v (replay-IsSized adds), get_value-replay q adds)

-- In every reachable state the table reads as the adds that wrote it, one after the other.
pub get_value-last_write :
    {mutex_of : ℕ → ℕ} {n : ℕ} {s : System} (q : CString)
    → Reach mutex_of n s
    → get_value s.table q ≡ last_write q s.writes
get_value-last_write {s} q r =
    ap (λ t. get_value t q) (Reach-Inv r).linear ∙ get_value-replay q s.writes

-- In every reachable state the table is well formed: no key has two entries.
pub Reach-IsValid : {mutex_of : ℕ → ℕ} {n : ℕ} {s : System} → Reach mutex_of n s → IsValid s.table
Reach-IsValid {s} r = rw (Reach-Inv r).linear (replay-IsValid s.writes)

-- No thread is in a call.
abbrev pub IsQuiet : System → Type 0
IsQuiet s = (i : ℕ) → s.pc i ≡ Pc.idle

-- While no thread is in a call, each add that was called has written the table once, whatever the
-- adds are weighed by.
pub quiet-weigh :
    {mutex_of : ℕ → ℕ} {n : ℕ} {s : System} (w : CString → ℕ → ℕ)
    → Reach mutex_of n s
    → IsQuiet s
    → weigh w s.calls ≡ weigh w s.writes
quiet-weigh {n = n} {s = s} w r quiet = omega (
  arith,
  (Reach-Inv r).counted w,
  sum_over-zero (pending w) n s.pc (λ i. ap (pending w) (quiet i)),
)

-- Some add was called with a key that compares equal.
abbrev pub called : CString → List (CString × ℕ) → Bool
called q [] = false
called q ((k, v) ∷ adds) = str_eq k q || called q adds

abbrev hits : CString → CString → ℕ → ℕ
hits q k v = if str_eq k q then 1 else 0

called-weigh :
    (q : CString) (a b : List (CString × ℕ))
    → weigh (hits q) a ≡ weigh (hits q) b
    → called q a ≡ called q b
called-weigh q a b same = ground (arith, positive a, positive b)
  where
    positive :
        (l : List (CString × ℕ)) → called q l ≡ (if weigh (hits q) l == 0 then false else true)
    positive [] = refl
    positive ((k, v) ∷ adds) = ground (arith, positive adds)

last_write-called :
    (q : CString) (adds : List (CString × ℕ)) → is_some (last_write q adds) ≡ called q adds
last_write-called q [] = refl
last_write-called q ((k, v) ∷ adds) = ground (arith, last_write-called q adds)

-- While no thread is in a call, the table contains exactly the keys of the adds that were called:
-- no thread's add is lost.
pub contains-called :
    {mutex_of : ℕ → ℕ} {n : ℕ} {s : System} (q : CString)
    → Reach mutex_of n s
    → IsQuiet s
    → contains s.table q ≡ called q s.calls
contains-called {s} q r quiet =
    contains-get_value s.table q
    ∙ ap is_some (get_value-last_write q r)
    ∙ last_write-called q s.writes
    ∙ sym (called-weigh q s.calls s.writes (quiet-weigh (hits q) r quiet))
