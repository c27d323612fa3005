-- ===== src/Wut/Keeps.antt =====
-- What each part of wut/src/wut.c keeps. `K` is a property that the writes of its operations, taken
-- one by one, keep; so do the operations, but for the growth of the array in `wut_create`.
pub mod Calls
use ece344_operating_system.Common.{
  ℕ, ◌+◌, ◌≡◌, refl, Bool, true, false, Option, none, some, List, [], ◌∷◌, ◌++◌, ltb, ◌==◌, leb,
  not, ◌||◌, if◌then◌else◌, Bool-cases, inl, inr, arith,
}
use ece344_operating_system.Common.Family.{update}
use ece344_operating_system.Common.Int.{ℤ, pos, negsuc}
use ece344_operating_system.Wut.State.{
  Thread, Context, initial, entry, yielding, joining, Tcb, State, Outcome, ok, fault, exited, M,
  pure, bind_outcome, ◌>>=◌, ◌>>◌, Event, returned, is_minus_one,
}
use ece344_operating_system.Wut.Memory.{
  read_array, deref, deref_int, get_tcb, modify, set_current, new_thread_in_q, has_address,
  free_thread, insert_tail, take_first, remove, remove_thread, resume, swap_context, set_context,
}
use ece344_operating_system.Wut.Schedule.{
  requeue, wut_yield, block_on, join_slot, wut_join, low_byte, wake_joiner, run_next, exit_status,
  wut_exit,
}
use ece344_operating_system.Wut.Cancel.{release_joiner, withdraw, cancel_slot, wut_cancel}

-- A write of fields that leaves the status of a thread that has ended.
abbrev pub IsGentle : (Tcb → Tcb) → Type 0
IsGentle f = (t : Tcb) → is_minus_one t.status ≡ false → (f t).status ≡ t.status

pub record IsKept (K : State → Type 0) : Type 0 where
  pub tcb :
      (s : State) (p : ℕ) (c : Tcb)
      → (is_minus_one (s.tcb p).status ≡ false → c.status ≡ (s.tcb p).status)
      → K s
      → K (record s { tcb = update s.tcb p c })
  pub queue : (s : State) (q : List Thread) → K s → K (record s { queue = q })
  pub current : (s : State) (i : ℕ) → K s → K (record s { current = i })
  pub threads : (s : State) (n : ℕ) → K s → K (record s { threads = n })

-- A run that returns does so in a state with `K`.
pub data Keeps (K : State → Type 0) {A : Type 0} : Outcome A → Type 0 where
  returns : {a : A} {s : State} → K s → Keeps K (ok a s)
  faults : Keeps K fault
  exits : Keeps K exited

module _ {K : State → Type 0} where
  pub Keeps-ok : {A : Type 0} {o : Outcome A} {a : A} {s : State} → Keeps K o → o ≡ ok a s → K s
  Keeps-ok (returns k) e = ground arith
  Keeps-ok faults e = absurd (cc)
  Keeps-ok exits e = absurd (cc)

module _ {K : State → Type 0} (kept : IsKept K) where
  pub bind_outcome-Keeps :
      {A B : Type 0} {o : Outcome A} {f : A → M B}
      → Keeps K o
      → ((a : A) (s : State) → K s → Keeps K (f a s))
      → Keeps K (bind_outcome o f)
  bind_outcome-Keeps (returns k) next = next _ _ k
  bind_outcome-Keeps faults next = faults
  bind_outcome-Keeps exits next = exits

  pub if-Keeps :
      {A : Type 0} (b : Bool) {x y : Outcome A}
      → Keeps K x
      → Keeps K y
      → Keeps K (if b then x else y)
  if-Keeps true hx hy = hx
  if-Keeps false hx hy = hy

  pub if_M-Keeps :
      {A : Type 0} (b : Bool) (x y : M A) (s : State)
      → Keeps K (x s)
      → Keeps K (y s)
      → Keeps K ((if b then x else y) s)
  if_M-Keeps true x y s hx hy = hx
  if_M-Keeps false x y s hx hy = hy

  -- Whatever was done, the process exits.
  pub exited-Keeps :
      {A B : Type 0} (o : Outcome A) → Keeps K {A = B} (bind_outcome o (λ _ _. exited))
  exited-Keeps (ok a s) = exits
  exited-Keeps fault = faults
  exited-Keeps exited = exits

  pub deref-Keeps : (i : ℕ) {s : State} → K s → Keeps K (deref i s)
  unfolding deref
  deref-Keeps i {s} k = if-Keeps (ltb i s.max_thread_num) (go (s.array i)) faults
    where
      go : (o : Option ℕ) → Keeps K (elim o as (λ _. Outcome ℕ) [ none ↦ fault | some p ↦ ok p s ])
      go none = faults
      go (some p) = returns k

  pub deref_int-Keeps : (i : ℤ) {s : State} → K s → Keeps K (deref_int i s)
  unfolding deref_int
  deref_int-Keeps (pos i) k = deref-Keeps i k
  deref_int-Keeps (negsuc i) k = faults

  pub get_tcb-Keeps : (p : ℕ) {s : State} → K s → Keeps K (get_tcb p s)
  unfolding get_tcb
  get_tcb-Keeps p k = returns k

  pub modify-Keeps : (p : ℕ) (f : Tcb → Tcb) {s : State} → IsGentle f → K s → Keeps K (modify p f s)
  unfolding modify
  modify-Keeps p f {s} gentle k = returns (kept.tcb s p (f (s.tcb p)) (gentle (s.tcb p)) k)

  pub new_thread_in_q-Keeps : (i : ℕ) {s : State} → K s → Keeps K (new_thread_in_q i s)
  unfolding new_thread_in_q
  new_thread_in_q-Keeps i {s} k = returns (kept.threads s (s.threads + 1) k)

  pub free_thread-Keeps : (o : Option ℕ) {s : State} → K s → Keeps K (free_thread o s)
  unfolding free_thread
  free_thread-Keeps none k = returns k
  free_thread-Keeps (some a) {s} k = if-Keeps (has_address a s.queue) faults (returns k)

  pub insert_tail-Keeps : (t : Thread) {s : State} → K s → Keeps K (insert_tail t s)
  unfolding insert_tail
  insert_tail-Keeps t {s} k = returns (kept.queue s (s.queue ++ t ∷ []) k)

  pub set_current-Keeps : (i : ℕ) {s : State} → K s → Keeps K (set_current i s)
  unfolding set_current
  set_current-Keeps i {s} k = returns (kept.current s i k)

  pub take_first-Keeps : {s : State} → K s → Keeps K (take_first s)
  unfolding take_first
  take_first-Keeps {s} k = go s.queue
    where
      go :
          (q : List Thread)
          → Keeps K (elim q as (λ _. Outcome Thread) [
            | [] ↦ fault
            | t ∷ q ↦ ok t (record s { queue = q })
          ])
      go [] = faults
      go (t ∷ q) = returns (kept.queue s q k)

  pub remove_thread-Keeps : (o : Option ℕ) {s : State} → K s → Keeps K (remove_thread o s)
  unfolding remove_thread
  remove_thread-Keeps none k = faults
  remove_thread-Keeps (some a) {s} k =
      if-Keeps (has_address a s.queue) (returns (kept.queue s (remove a s.queue) k)) faults

  pub read_array-Keeps : (i : ℕ) {s : State} → K s → Keeps K (read_array i s)
  unfolding read_array
  read_array-Keeps i {s} k = if-Keeps (ltb i s.max_thread_num) (returns k) faults

  pub resume-Keeps : (c : Option Context) {s : State} → K s → Keeps K (resume c s)
  unfolding resume
  resume-Keeps none k = faults
  resume-Keeps (some initial) k = faults
  resume-Keeps (some (entry run)) k = returns k
  resume-Keeps (some yielding) k = returns k
  resume-Keeps (some (joining p)) k =
      bind_outcome-Keeps (modify-Keeps p _ (λ t e. refl) k)
        λ _ s k. bind_outcome-Keeps (get_tcb-Keeps p k) λ t s k. returns k

  pub swap_context-Keeps :
      (from to : ℕ) (c : Context) {s : State} → K s → Keeps K (swap_context from to c s)
  unfolding swap_context
  swap_context-Keeps from to c {s} k = go (s.tcb from).ucontext
    where
      go :
          (o : Option Context)
          → Keeps K (elim o as (λ _. Outcome Event) [
            | none ↦ fault
            | some _ ↦
                (do
                  modify from (λ t. record t { ucontext = some c })
                  t ← get_tcb to
                  resume t.ucontext)
                  s
          ])
      go none = faults
      go (some _) =
          bind_outcome-Keeps (modify-Keeps from _ (λ t e. refl) k)
            λ _ s k. bind_outcome-Keeps (get_tcb-Keeps to k) λ t s k. resume-Keeps t.ucontext k

  pub set_context-Keeps : (to : ℕ) {s : State} → K s → Keeps K (set_context to s)
  unfolding set_context
  set_context-Keeps to k =
      bind_outcome-Keeps (get_tcb-Keeps to k) λ t s k. resume-Keeps t.ucontext k
