-- ===== src/Wut/Schedule/Ready.antt =====
-- After wut_init of wut/src/wut.c and any number of calls of wut_create the threads can take turns.
use ece344_operating_system.Common.{
  ℕ, ◌≡◌, ◌≢◌, refl, ap, ◌∙◌, true, false, some, List, [], ◌∷◌, ◌++◌, arith, ℕ_discrete,
}
use ece344_operating_system.Common.Int.{pos}
use ece344_operating_system.Wut.State.{Thread, State, ok, returned, is_minus_one}
use ece344_operating_system.Wut.Create.{wut_init, wut_create, is_reusable}
use ece344_operating_system.Wut.Create.Slots.{IsSized, Creates, wut_create-Creates, Creates-IsSized}
use ece344_operating_system.Wut.Schedule.Order.{
  All, has_id, IsQueued, IsReady, has_id-append, has_address-append, has_address-fresh,
  IsDistinct-append_one, All-IsQueued, All-append_one,
}

-- `wut_init` leaves thread 0 running, alone.
pub wut_init-IsReady : IsReady wut_init
unfolding wut_init
wut_init-IsReady = record {
  slots = λ i p e. ground arith;
  here = (0, refl, refl, refl);
  apart = refl;
  entry = λ p a e f. ground arith;
  queued = tt;
  distinct = tt;
}

module _ {run i : ℕ} {s t : State} (sized : IsSized s) (ready : IsReady s)
    (c : Creates run s i t) where
  -- A thread that runs or is ready does not stand in the slot that is given out.
  live_elsewhere : (j p : ℕ) → s.array j ≡ some p → is_minus_one (s.tcb p).status ≡ true → j ≢ i
  unfolding is_reusable
  live_elsewhere j p at live e = let h = c.reusable in ground (arith, e, at, live, h)

  not_queued : (q : List Thread) → All (IsQueued s) q → has_id i q ≡ false
  not_queued [] h = refl
  not_queued (n ∷ q) h =
      let (p, at, _, _, _, live) = h.0 in
      ground (arith, not_queued q h.1, live_elsewhere n.thread_id p at live)

  current_elsewhere : s.current ≢ i
  current_elsewhere = let (p, at, _, live) = ready.here in live_elsewhere s.current p at live

  still-IsQueued : (n : Thread) → IsQueued s n → has_id n.thread_id s.queue ≡ true → IsQueued t n
  still-IsQueued n (p, at, runs, points, old, live) _ =
      let same = c.other_tcbs p (omega (arith, sized.allocated n.thread_id p at)) in
      (
        p,
        c.other_slots n.thread_id (live_elsewhere n.thread_id p at live) ∙ at,
        rw same runs,
        rw same points,
        omega (arith, c.threads),
        rw same live,
      )

  -- What `wut_create` does leaves the threads ready to take turns, the new one with them.
  Creates-IsReady : IsReady t
  Creates-IsReady = record {
    slots = λ j p e. elim (ℕ_discrete j i) [
      | yes same ↦
          ground (
            arith, c.slot, c.fields, same, e, c.max_thread_num, c.at_most, sized.counted,
            sized.room,
          )
      | no other ↦ ground (
        arith,
        e,
        c.other_slots j other,
        c.other_tcbs p,
        sized.allocated j p,
        ready.slots j p,
        c.max_thread_num,
      )
    ];
    here =
        let (p, at, saved, live) = ready.here in
        let same = c.other_tcbs p (omega (arith, sized.allocated s.current p at)) in
        (
          p,
          ap t.array c.current ∙ c.other_slots s.current current_elsewhere ∙ at,
          rw same saved,
          rw same live,
        );
    apart = rw (c.current, c.queue, has_id-append, ready.apart) (ground (arith, current_elsewhere));
    entry = λ p a e f.
        let at : s.array s.current ≡ some p =
          ground (arith, e, c.current, c.other_slots s.current current_elsewhere) in
        let same = c.other_tcbs p (omega (arith, sized.allocated s.current p at)) in
        let (outside, old) = ready.entry p a at (ground (arith, same, f)) in
        (
          rw (c.queue, has_address-append, outside) (ground (arith, old)),
          omega (arith, old, c.threads),
        );
    queued = rw c.queue (
        All-append_one (IsQueued t) s.queue new
          (All-IsQueued s t s.queue still-IsQueued ready.queued)
          (
            s.tcbs,
            c.slot,
            ground (arith, c.fields),
            ground (arith, c.fields),
            omega (arith, c.threads),
            ground (arith, c.fields),
          ));
    distinct = rw c.queue (
        IsDistinct-append_one s.queue new (not_queued s.queue ready.queued)
          (has_address-fresh s s.queue ready.queued) ready.distinct);
  }
    where
      new : Thread
      new = record { address = s.threads; thread_id = i }

-- From a state with the array and the threads in order, `wut_create` returns the id of the new thread, and
-- leaves the array in order and the threads ready to take turns, the new one as the last of the queue.
pub wut_create-IsReady :
    (run : ℕ) (s : State)
    → IsSized s
    → IsReady s
    → (i : ℕ) × (t : State) × (wut_create run s ≡ ok (returned (pos i)) t)
      × IsSized t
      × IsReady t
      × (t.queue ≡ s.queue ++ (record { address = s.threads; thread_id = i }) ∷ [])
wut_create-IsReady run s sized ready =
    let (i, t, returns, c) = wut_create-Creates run s sized in
    (i, t, returns, Creates-IsSized sized c, Creates-IsReady sized ready c, c.queue)
