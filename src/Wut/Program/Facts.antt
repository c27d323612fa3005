-- ===== src/Wut/Program/Facts.antt =====
-- What holds in every state that a program over wut/src/wut.c reaches.
use ece344_operating_system.Common.{ℕ, ◌<◌, ◌≡◌, false, arith}
use ece344_operating_system.Common.Int.{ℤ, pos}
use ece344_operating_system.Wut.State.{State, ok, Event, returned, is_minus_one}
use ece344_operating_system.Wut.Create.{wut_init, wut_create}
use ece344_operating_system.Wut.Create.Slots.{IsSized, Creates, wut_create-Creates, Creates-IsSized}
use ece344_operating_system.Wut.Keeps.{IsKept, Keeps-ok}
use ece344_operating_system.Wut.Keeps.Calls.{
  wut_yield-Keeps, wut_join-Keeps, wut_cancel-Keeps, wut_exit-Keeps, exit_context-Keeps,
}
use ece344_operating_system.Wut.Program.{
  Call, create, yield, join, cancel, exit, finish, perform, Leads, here, next, Reachable,
}

IsSized-kept : IsKept IsSized
IsSized-kept = record {
  tcb = λ s p c h k. record {
    room = k.room;
    counted = k.counted;
    unused = k.unused;
    allocated = k.allocated;
  };
  queue = λ s q k. record {
    room = k.room;
    counted = k.counted;
    unused = k.unused;
    allocated = k.allocated;
  };
  current = λ s i k. record {
    room = k.room;
    counted = k.counted;
    unused = k.unused;
    allocated = k.allocated;
  };
  threads = λ s n k. record {
    room = k.room;
    counted = k.counted;
    unused = k.unused;
    allocated = k.allocated;
  };
}

-- A TCB that is allocated and has ended with this status.
pub record HasEnded (p : ℕ) (v : ℤ) (s : State) : Type 0 where
  pub allocated : p < s.tcbs
  pub status : (s.tcb p).status ≡ v

HasEnded-kept : (p : ℕ) (v : ℤ) → is_minus_one v ≡ false → IsKept (HasEnded p v)
HasEnded-kept p v ended = record {
  tcb = λ s q c h k. record { allocated = k.allocated; status = ground (arith, k.status, h) };
  queue = λ s q k. record { allocated = k.allocated; status = k.status };
  current = λ s i k. record { allocated = k.allocated; status = k.status };
  threads = λ s n k. record { allocated = k.allocated; status = k.status };
}

created_by :
    (run : ℕ) (s t : State) (e : Event)
    → IsSized s
    → wut_create run s ≡ ok e t
    → (i : ℕ) × Creates run s i t
created_by run s t e sized ok_t =
    let (i, u, ok_u, c) = wut_create-Creates run s sized in
    (i, rw (same_state e (returned (pos i)) t u (ground arith)) c)
  where
    same_state : (a b : Event) (t u : State) → ok a t ≡ ok b u → t ≡ u
    same_state a b t u h = cc

-- A call keeps unused slots NULL and slots on allocated TCBs.
perform-IsSized :
    (c : Call) (s t : State) (e : Event) → IsSized s → perform c s ≡ ok e t → IsSized t
unfolding perform
perform-IsSized (create run) s t e k h =
    let (i, c) = created_by run s t e k h in Creates-IsSized k c
perform-IsSized yield s t e k h = Keeps-ok (wut_yield-Keeps IsSized-kept s k) h
perform-IsSized (join id) s t e k h = Keeps-ok (wut_join-Keeps IsSized-kept id s k) h
perform-IsSized (cancel id) s t e k h = Keeps-ok (wut_cancel-Keeps IsSized-kept id s k) h
perform-IsSized (exit status) s t e k h = Keeps-ok (wut_exit-Keeps IsSized-kept status s k) h
perform-IsSized finish s t e k h = Keeps-ok (exit_context-Keeps IsSized-kept s k) h

perform-HasEnded :
    (c : Call) (s t : State) (e : Event) (p : ℕ) (v : ℤ)
    → is_minus_one v ≡ false
    → IsSized s
    → perform c s ≡ ok e t
    → HasEnded p v s
    → HasEnded p v t
unfolding perform
perform-HasEnded (create run) s t e p v m z h k =
    let (i, c) = created_by run s t e z h in
    record {
      allocated = omega (arith, c.tcbs, k.allocated);
      status = rw (c.other_tcbs p (omega (arith, k.allocated))) k.status;
    }
perform-HasEnded yield s t e p v m z h k = Keeps-ok (wut_yield-Keeps (HasEnded-kept p v m) s k) h
perform-HasEnded (join id) s t e p v m z h k =
    Keeps-ok (wut_join-Keeps (HasEnded-kept p v m) id s k) h
perform-HasEnded (cancel id) s t e p v m z h k =
    Keeps-ok (wut_cancel-Keeps (HasEnded-kept p v m) id s k) h
perform-HasEnded (exit status) s t e p v m z h k =
    Keeps-ok (wut_exit-Keeps (HasEnded-kept p v m) status s k) h
perform-HasEnded finish s t e p v m z h k =
    Keeps-ok (exit_context-Keeps (HasEnded-kept p v m) s k) h

wut_init-IsSized : IsSized wut_init
unfolding wut_init
wut_init-IsSized = record {
  room = omega arith;
  counted = omega arith;
  unused = λ i le. ground arith;
  allocated = λ i p e. ground arith;
}

Leads-IsSized : {s t : State} → IsSized s → Leads s t → IsSized t
Leads-IsSized k here = k
Leads-IsSized k (next c e path step) = perform-IsSized c _ _ e (Leads-IsSized k path) step

-- In every reachable state the array has room for the threads counted, slots from that count on are
-- NULL, and the others point to allocated TCBs.
pub Reachable-IsSized : {s : State} → Reachable s → IsSized s
Reachable-IsSized r = Leads-IsSized wut_init-IsSized r

-- In every reachable state `wut_create` succeeds: it returns the least id whose slot is free or holds
-- a thread that has ended and is not being joined, and puts the new thread last in the queue.
pub wut_create_succeeds :
    {s : State} (run : ℕ)
    → Reachable s
    → (i : ℕ) × (t : State) × (wut_create run s ≡ ok (returned (pos i)) t) × Creates run s i t
wut_create_succeeds {s} run r = wut_create-Creates run s (Reachable-IsSized r)

-- Once a thread has ended with a status, no later call of any thread changes the status of its TCB.
pub status_is_final :
    {s t : State} (p : ℕ) (v : ℤ)
    → Reachable s
    → Leads s t
    → p < s.tcbs
    → (s.tcb p).status ≡ v
    → is_minus_one v ≡ false
    → (t.tcb p).status ≡ v
status_is_final {s} p v r path lt e m = (go path).status
  where
    go : {t : State} → Leads s t → HasEnded p v t
    go here = record { allocated = lt; status = e }
    go (next c ev path step) =
        perform-HasEnded c _ _ ev p v m (Leads-IsSized (Reachable-IsSized r) path) step (go path)
