-- ===== src/Wut/Schedule/Join.antt =====
-- wut_join and wut_exit of wut/src/wut.c together.
use mathlib.Core.Path.{fun_ext}
use ece344_operating_system.Common.{
  ℕ, ◌+◌, ◌<◌, ◌≡◌, ◌≢◌, refl, ap, ◌∙◌, true, false, some, List, [], ◌∷◌, ◌++◌, arith, ℕ_discrete,
}
use ece344_operating_system.Common.Family.{update}
use ece344_operating_system.Common.Int.{ℤ, pos}
use ece344_operating_system.Wut.State.{
  Thread, entry, joining, State, ok, entered, returned, is_minus_one, minus_one,
}
use ece344_operating_system.Wut.Memory.{
  read_array, deref, get_tcb, modify, set_current, take_first, resume, swap_context, is_empty,
  has_address,
}
use ece344_operating_system.Wut.Schedule.{
  block_on, join_slot, wut_join, low_byte, wake_joiner, continue_next, run_next, exit_status,
  exit_on, wut_exit,
}
use ece344_operating_system.Wut.Create.{is_reusable}
use ece344_operating_system.Wut.Schedule.Order.{IsQueued, IsReady, is_saved}
use ece344_operating_system.Wut.Schedule.Yield.{deref_lem}
use ece344_operating_system.Wut.Schedule.Wake.{low_byte_lem, with_joiner, wake_joiner_lem}

is_empty-append : (q : List Thread) (n : Thread) → is_empty (q ++ n ∷ []) ≡ false
is_empty-append [] n = refl
is_empty-append (m ∷ q) n = refl

-- The running thread's TCB is `p`; the next in the queue is a new thread whose TCB is `r`.
module _ (s : State) (n : Thread) (q : List Thread) (queue : s.queue ≡ n ∷ q) (p r run : ℕ)
    (p-ne-r : p ≢ r) (at_p : s.array s.current ≡ some p) (in_p : s.current < s.max_thread_num)
    (id_p : (s.tcb p).id ≡ s.current) (saved : is_saved (s.tcb p).ucontext ≡ true)
    (at_r : s.array n.thread_id ≡ some r) (in_r : n.thread_id < s.max_thread_num)
    (id_r : (s.tcb r).id ≡ n.thread_id) (new : (s.tcb r).ucontext ≡ some (entry run)) where
  -- The state in which the new thread is entered.
  abbrev joined : State
  joined = record s {
    current = n.thread_id;
    queue = q;
    tcb =
        update
          (update s.tcb r
            (record (s.tcb r) { join = true; enable = false; join_from = pos s.current }))
          p
          (record (s.tcb p) {
            block = true;
            join_to = pos n.thread_id;
            ucontext = some (joining r);
          });
  }

  block_on-joined : block_on n.thread_id r s ≡ ok (entered run) joined
  unfolding block_on get_tcb modify take_first set_current swap_context resume deref
  block_on-joined = ground arith

  module _ (status : ℤ) (live : is_minus_one (s.tcb r).status ≡ true)
      (old : (a : ℕ) → (s.tcb p).thread_in_q ≡ some a → has_address a q ≡ false) where
    -- The thread has ended, and the thread that joined it is in the queue.
    abbrev woken : State
    woken = record s {
      current = n.thread_id;
      queue = q ++ (record { address = s.threads; thread_id = s.current }) ∷ [];
      threads = s.threads + 1;
      tcb =
          update
            (update s.tcb r (record (s.tcb r) {
              join = false;
              enable = false;
              join_from = minus_one;
              status = low_byte status;
            }))
            p
            (record (s.tcb p) {
              block = true;
              join_to = pos n.thread_id;
              ucontext = some (joining r);
              thread_in_q = some s.threads;
            });
    }

    abbrev ended : State
    ended = record joined {
      tcb = update joined.tcb r (record (joined.tcb r) { status = low_byte status });
    }

    exit_status-ended : modify r (exit_status status) joined ≡ ok tt ended
    unfolding modify
    exit_status-ended = ground arith

    with_joiner-tcb : (x : ℕ) → (with_joiner r p s.current ended).tcb x ≡ woken.tcb x
    with_joiner-tcb x = elim (ℕ_discrete p x) [
      | yes e ↦ ground (arith, e)
      | no a ↦ elim (ℕ_discrete r x) [ yes e ↦ ground (arith, e) | no b ↦ ground (arith, a, b) ]
    ]

    with_joiner-woken : with_joiner r p s.current ended ≡ woken
    with_joiner-woken = λ i. record woken { tcb = fun_ext with_joiner-tcb i }

    wake_joiner-woken : wake_joiner r ended ≡ ok tt woken
    wake_joiner-woken =
        wake_joiner_lem ended r p s.current p-ne-r in_p at_p (ground arith) (ground arith)
          (λ a e. ground (arith, e, old a))
        ∙ ap (ok tt) with_joiner-woken

    run_next-woken : run_next (some r) woken ≡ continue_next woken
    unfolding run_next
    run_next-woken =
        rw (is_empty-append q (record { address = s.threads; thread_id = s.current })) refl

    joined-now : (ended.tcb r).join ≡ true
    joined-now = ground (arith, p-ne-r)

    wut_exit-woken : wut_exit status joined ≡ continue_next woken
    unfolding wut_exit exit_on get_tcb
    wut_exit-woken = rw (
      deref_lem n.thread_id r joined in_r at_r,
      exit_status-ended,
      joined-now,
      wake_joiner-woken,
      run_next-woken,
    )

    woken-status : (woken.tcb r).status ≡ low_byte status
    woken-status = ground (arith, p-ne-r)

    woken-ucontext : (woken.tcb p).ucontext ≡ some (joining r)
    woken-ucontext = ground arith

wut_join-block_on :
    (s : State) (i r : ℕ)
    → s.current ≢ i
    → i < s.thread_num
    → i < s.max_thread_num
    → s.array i ≡ some r
    → is_minus_one (s.tcb r).status ≡ true
    → (s.tcb r).join ≡ false
    → wut_join (pos i) s ≡ block_on i r s
unfolding wut_join read_array join_slot
wut_join-block_on s i r ne counted in_r at_r live single = ground arith

-- A join that is continued returns the status, and the slot can be given out again.
resume-joining :
    (i r : ℕ) (value : ℤ) (v : State)
    → is_minus_one value ≡ false
    → (v.tcb r).status ≡ value
    → v.array i ≡ some r
    → (w : State) × (resume (some (joining r)) v ≡ ok (returned value) w) × (is_reusable w i ≡ true)
unfolding resume modify get_tcb is_reusable
resume-joining i r value v final status at = (
  record v { tcb = update v.tcb r (record (v.tcb r) { enable = true }) },
  ground (arith, status),
  ground (arith, status, at, final),
)

-- A thread, whose TCB is `p`, joins one that has not run yet and is the first of the queue: that one is
-- entered. When it exits, the joining thread is put at the end of the queue, and the first of the queue
-- runs. In any later state in which the context of the joining thread, the status of the other and its
-- slot are as they were left, continuing the joining thread returns the low byte of the status from
-- wut_join, and the slot can be given out again.
pub join-exit :
    (s : State) (n : Thread) (q : List Thread) (r run : ℕ) (status : ℤ)
    → IsReady s
    → s.queue ≡ n ∷ q
    → n.thread_id < s.thread_num
    → s.array n.thread_id ≡ some r
    → (s.tcb r).ucontext ≡ some (entry run)
    → (s.tcb r).join ≡ false
    → (p : ℕ) × (t u : State) × (s.array s.current ≡ some p)
      × (wut_join (pos n.thread_id) s ≡ ok (entered run) t)
      × (wut_exit status t ≡ continue_next u)
      × (u.queue ≡ q ++ (record { address = s.threads; thread_id = s.current }) ∷ [])
      × (u.array n.thread_id ≡ some r)
      × ((v : State)
          → (v.tcb p).ucontext ≡ (u.tcb p).ucontext
          → (v.tcb r).status ≡ (u.tcb r).status
          → v.array n.thread_id ≡ u.array n.thread_id
          → (w : State) × (resume (v.tcb p).ucontext v ≡ ok (returned (low_byte status)) w)
            × (is_reusable w n.thread_id ≡ true))
join-exit s n q r run status ready queue counted at_r new single =
    let (p, at_p, saved, _) = ready.here in
    let (in_p, id_p) = ready.slots s.current p at_p in
    let (in_r, id_r) = ready.slots n.thread_id r at_r in
    let other : s.current ≢ n.thread_id = let a = ready.apart in ground (arith, queue, a) in
    let p-ne-r : p ≢ r = ground (arith, other, id_p, id_r) in
    let live : is_minus_one (s.tcb r).status ≡ true =
      let h : IsQueued s n = (rw queue at ready.queued).0 in ground (arith, h.1, h.5, at_r) in
    let old : (a : ℕ) → (s.tcb p).thread_in_q ≡ some a → has_address a q ≡ false =
      λ a e. let h = (ready.entry p a at_p e).0 in ground (arith, queue, h) in
    (
      p,
      joined s n q queue p r run p-ne-r at_p in_p id_p saved at_r in_r id_r new,
      woken s n q queue p r run p-ne-r at_p in_p id_p saved at_r in_r id_r new status live old,
      at_p,
      wut_join-block_on s n.thread_id r other counted in_r at_r live single
          ∙ block_on-joined s n q queue p r run p-ne-r at_p in_p id_p saved at_r in_r id_r new,
      wut_exit-woken s n q queue p r run p-ne-r at_p in_p id_p saved at_r in_r id_r new status live
          old,
      refl,
      at_r,
      λ v context kept slot.
          let ended =
            woken-status s n q queue p r run p-ne-r at_p in_p id_p saved at_r in_r id_r new status
              live old in
          let waits =
            woken-ucontext s n q queue p r run p-ne-r at_p in_p id_p saved at_r in_r id_r new status
              live old in
          rw (context ∙ waits) (
            resume-joining n.thread_id r (low_byte status) v (low_byte_lem status) (kept ∙ ended)
              (slot ∙ at_r)),
    )
