-- ===== src/Wut/Create.antt =====
-- wut_init, resize and wut_create of wut/src/wut.c.
pub mod Slots
use ece344_operating_system.Common.{
  ℕ, zero, suc, ◌+◌, ◌*◌, ◌/◌, Bool, true, false, not, ◌&&◌, Option, none, some, List, [], leb, ltb,
  if◌then◌else◌,
}
use ece344_operating_system.Common.Family.{update}
use ece344_operating_system.Common.Int.{pos}
use ece344_operating_system.Wut.State.{
  Context, initial, entry, Tcb, State, ok, fault, M, pure, ◌>>=◌, ◌>>◌, Event, returned, minus_one,
  is_minus_one,
}
use ece344_operating_system.Wut.Memory.{modify, new_thread_in_q, insert_tail}

abbrev pub initial_max : ℕ
initial_max = 256

-- The fields that `wut_init` and `wut_create` give to every new TCB.
abbrev pub new_tcb : ℕ → Bool → Context → Tcb
new_tcb i stack context = record {
  id = i;
  status = minus_one;
  join = false;
  join_from = minus_one;
  join_to = minus_one;
  block = false;
  enable = true;
  thread_in_q = none;
  stack = stack;
  ucontext = some context;
}

-- The state after `wut_init`: thread 0 runs, with no stack of its own and no queue entry.
unfoldable pub wut_init : State
wut_init = record {
  array = update (λ _. none) 0 (some 0);
  max_thread_num = initial_max;
  thread_num = 1;
  current = 0;
  tcb = λ _. new_tcb 0 false initial;
  tcbs = 1;
  queue = [];
  threads = 0;
}

-- The size doubles, old slots are copied, new slots are NULL.
unfoldable pub resize : M (Unit {0})
resize s =
    let doubled = s.max_thread_num * 2 in
    ok tt (record s {
      max_thread_num = doubled;
      array = λ i. if ltb i (doubled / 2) then s.array i else none;
    })

-- The test of the loop that looks for a thread id.
unfoldable pub is_reusable : State → ℕ → Bool
is_reusable s i = elim (s.array i) [
  | none ↦ true
  | some p ↦ not (is_minus_one (s.tcb p).status) && (s.tcb p).enable
]

-- The loop from `i`, with the rounds that are left.
unfoldable pub find_slot : ℕ → ℕ → State → Option ℕ
find_slot zero i s = none
find_slot (suc rounds) i s =
    let rest = find_slot rounds (suc i) s in if is_reusable s i then some i else rest

-- The loop with its body. Without a slot the id of the new TCB stays undefined, and its use is a
-- fault.
unfoldable pub claim_slot : ℕ → M ℕ
unfolding find_slot modify
claim_slot p s = elim (find_slot s.max_thread_num 0 s) [
  | none ↦ fault
  | some i ↦ ok i (record s {
    tcb = update s.tcb p (record (s.tcb p) { id = i });
    array = update s.array i (some p);
    thread_num = s.thread_num + 1;
  })
]

-- malloc (sizeof (TCB)), with the fields that do not depend on the slot.
unfoldable pub malloc_tcb : Tcb → M ℕ
malloc_tcb t s = ok s.tcbs (record s { tcb = update s.tcb s.tcbs t; tcbs = s.tcbs + 1 })

unfoldable pub resize_if_full : M (Unit {0})
unfolding resize
resize_if_full s = if leb s.max_thread_num s.thread_num then resize s else ok tt s

-- The new thread joins the ready queue.
unfoldable pub enqueue_new : (p i : ℕ) → M Event
unfolding new_thread_in_q insert_tail modify
enqueue_new p i = do
  t ← new_thread_in_q i
  insert_tail t
  modify p (λ c. record c { thread_in_q = some t.address })
  pure (returned (pos i))

unfoldable pub wut_create : (run : ℕ) → M Event
unfolding resize_if_full malloc_tcb
wut_create run = do
  resize_if_full
  p ← malloc_tcb (new_tcb 0 true (entry run))
  i ← claim_slot p
  enqueue_new p i
