-- ===== src/Wut/Schedule/Yield.antt =====
-- What wut_yield of wut/src/wut.c does while other threads are ready.
use ece344_operating_system.Common.{
  ℕ, ◌+◌, ◌<◌, ◌≡◌, ◌≢◌, refl, ap, ◌∙◌, true, false, Option, none, some, List, [], ◌∷◌, ◌++◌, map,
  arith, map-append, lt→ltb,
}
use ece344_operating_system.Common.Family.{update}
use ece344_operating_system.Wut.State.{Thread, Context, yielding, State, ok, Event, is_minus_one}
use ece344_operating_system.Wut.Memory.{
  has_address, deref, get_tcb, modify, set_current, new_thread_in_q, free_thread, insert_tail,
  take_first, resume, swap_context,
}
use ece344_operating_system.Wut.Schedule.{requeue, switch_to_next}
use ece344_operating_system.Wut.Schedule.Order.{
  All, has_id, IsDistinct, is_resumable, is_saved, IsQueued, IsReady, order, resume-Like,
  All-IsQueued, Like-IsReady, has_id-append, has_address-append, IsDistinct-append_one,
  has_address-fresh, All-append_one,
}

is_saved_of_resumable : (c : Option Context) → is_resumable c ≡ true → is_saved c ≡ true
is_saved_of_resumable none h = h
is_saved_of_resumable (some c) h = refl

pub deref_lem :
    (i p : ℕ) (s : State) → i < s.max_thread_num → s.array i ≡ some p → deref i s ≡ ok p s
unfolding deref
deref_lem i p s lt e = rw (lt→ltb _ _ lt, e, deref)

-- The state in which a thread that yields has been put at the end of the queue.
abbrev queued_behind : ℕ → State → State
queued_behind p s = record s {
  threads = s.threads + 1;
  tcb = update s.tcb p (record (s.tcb p) { thread_in_q = some s.threads });
  queue = s.queue ++ (record { address = s.threads; thread_id = s.current }) ∷ [];
}

free_thread_lem :
    (o : Option ℕ) (s : State)
    → ((a : ℕ) → o ≡ some a → has_address a s.queue ≡ false)
    → free_thread o s ≡ ok tt s
unfolding free_thread
free_thread_lem none s h = refl
free_thread_lem (some a) s h = rw (h a refl)

requeue_lem :
    (p : ℕ) (s : State)
    → s.current < s.max_thread_num
    → s.array s.current ≡ some p
    → ((a : ℕ) → (s.tcb p).thread_in_q ≡ some a → has_address a s.queue ≡ false)
    → requeue s.current s ≡ ok tt (queued_behind p s)
unfolding requeue new_thread_in_q get_tcb modify insert_tail
requeue_lem p s lt e h = rw (
  deref_lem s.current p (record s { threads = s.threads + 1 }) lt e,
  free_thread_lem (s.tcb p).thread_in_q (record s { threads = s.threads + 1 }) h,
)

-- The state in which the next thread is about to be continued.
abbrev switched : (from : ℕ) → Thread → List Thread → State → State
switched from next q s =
    let tcb = update s.tcb from (record (s.tcb from) { thread_in_q = some s.threads }) in
    record s {
      threads = s.threads + 1;
      current = next.thread_id;
      tcb = update tcb from (record (tcb from) { ucontext = some yielding });
      queue = q ++ (record { address = s.threads; thread_id = s.current }) ∷ [];
    }

module _ (s : State) (ready : IsReady s) (n : Thread) (q : List Thread) (queue : s.queue ≡ n ∷ q)
    (p r : ℕ) (at_p : s.array s.current ≡ some p) (at_r : s.array n.thread_id ≡ some r) where
  ne_current : n.thread_id ≢ s.current
  ne_current e = let a = ready.apart in ground (arith, queue, a)

  p-ne-r : p ≢ r
  p-ne-r e =
      ground (arith, ne_current, ready.slots s.current p at_p, ready.slots n.thread_id r at_r)

  saved : is_saved (s.tcb p).ucontext ≡ true
  saved = let (p', at, ok', _) = ready.here in ground (arith, at, at_p, ok')

  requeue_current : requeue (s.tcb p).id s ≡ ok tt (queued_behind p s)
  requeue_current =
      ap (λ i. requeue i s) (ready.slots s.current p at_p).1
      ∙ (requeue_lem p s (ready.slots s.current p at_p).0 at_p (λ a e. (ready.entry p a at_p e).0))

  running : is_minus_one (s.tcb p).status ≡ true
  running = let (p', at, _, live) = ready.here in ground (arith, at, at_p, live)

  swap_context-saved :
      (t : State)
      → is_saved (t.tcb p).ucontext ≡ true
      → swap_context p r yielding t
        ≡ resume
            (update t.tcb p (record (t.tcb p) { ucontext = some yielding }) r).ucontext
            (record t { tcb = update t.tcb p (record (t.tcb p) { ucontext = some yielding }) })
  unfolding swap_context modify get_tcb
  swap_context-saved t h = ground arith

  switch_to_next-resume : switch_to_next s ≡ resume (s.tcb r).ucontext (switched p n q s)
  unfolding switch_to_next get_tcb take_first set_current
  switch_to_next-resume =
      rw
        (
          deref_lem s.current p s (ready.slots s.current p at_p).0 at_p,
          requeue_current,
          queue,
          deref_lem n.thread_id r taken (ready.slots n.thread_id r at_r).0 at_r,
          swap_context-saved taken still_saved,
        )
        (ap (λ c. resume c (switched p n q s)) kept)
    where
      taken : State
      taken = record (queued_behind p s) {
        current = n.thread_id;
        queue = q ++ (record { address = s.threads; thread_id = s.current }) ∷ [];
      }

      still_saved : is_saved (taken.tcb p).ucontext ≡ true
      still_saved = ground (arith, saved)

      kept : ((switched p n q s).tcb r).ucontext ≡ (s.tcb r).ucontext
      kept = ground (arith, p-ne-r)

  queued : All (IsQueued s) (n ∷ q)
  queued = rw queue at ready.queued

  distinct : IsDistinct (n ∷ q)
  distinct = rw queue at ready.distinct

  not_in_rest : has_id s.current q ≡ false
  not_in_rest = let a = ready.apart in ground (arith, queue, a)

  switched-IsQueued :
      (m : Thread) → IsQueued s m → has_id m.thread_id q ≡ true → IsQueued (switched p n q s) m
  switched-IsQueued m (x, at_x, runs, points, old, live) inside =
      let other : m.thread_id ≢ s.current = λ e. absurd (ground (arith, not_in_rest, inside, e)) in
      let p-ne-x : p ≢ x =
        ground (arith, other, ready.slots s.current p at_p, ready.slots m.thread_id x at_x) in
      (x, at_x, ground (arith, p-ne-x), ground (arith, p-ne-x), omega arith, ground (arith, p-ne-x))

  head_queued :
      (is_resumable (s.tcb r).ucontext ≡ true)
      × ((s.tcb r).thread_in_q ≡ some n.address)
      × (n.address < s.threads)
      × (is_minus_one (s.tcb r).status ≡ true)
  head_queued = let (x, at_x, runs, points, old, live) = queued.0 in ground (arith, at_x, at_r)

  switched-IsReady : IsReady (switched p n q s)
  switched-IsReady = record {
    slots = λ i x e. ground (arith, ready.slots i x);
    here = (
      r,
      at_r,
      ground (arith, p-ne-r, is_saved_of_resumable (s.tcb r).ucontext, head_queued),
      ground (arith, p-ne-r, head_queued),
    );
    apart = ground (arith, has_id-append n.thread_id q (new ∷ []), distinct.0, ne_current);
    entry = λ x a e f.
        ground
          (arith, at_r, head_queued, p-ne-r, distinct.1, has_address-append n.address q (new ∷ []));
    queued =
        All-append_one (IsQueued (switched p n q s)) q new
          (All-IsQueued s (switched p n q s) q switched-IsQueued queued.1)
          (p, at_p, ground arith, ground arith, omega arith, ground (arith, running));
    distinct = IsDistinct-append_one q new not_in_rest (has_address-fresh s q queued.1) distinct.2;
  }
    where
      new : Thread
      new = record { address = s.threads; thread_id = s.current }

  pub switch_to_next_lem :
      (e : Event) × (t : State) × (switch_to_next s ≡ ok e t)
      × (order t ≡ map (λ (m : Thread). m.thread_id) s.queue ++ s.current ∷ [])
      × IsReady t
  switch_to_next_lem =
      let (e, t, run, like) = resume-Like (s.tcb r).ucontext (switched p n q s) head_queued.0 in
      (
        e,
        t,
        switch_to_next-resume ∙ run,
        rw (like.current, like.queue, queue, map-append),
        Like-IsReady like switched-IsReady,
      )
