-- ===== src/Wut/Schedule.antt =====
-- wut_id, wut_yield, wut_join and wut_exit of wut/src/wut.c. A run of one goes on until the code of a
-- thread continues, and its result is what that thread sees.
pub mod Order
pub mod Yield
pub mod Turns
pub mod Wake
pub mod Join
pub mod Ready
pub mod Slots
pub mod Clear
use ece344_operating_system.Common.{
  ℕ, zero, suc, ◌+◌, ◌-◌, ◌%◌, Bool, true, false, not, ◌&&◌, ◌||◌, Option, none, some, List, [],
  ◌∷◌, leb, ◌==◌, if◌then◌else◌,
}
use ece344_operating_system.Common.Family.{update}
use ece344_operating_system.Common.Int.{ℤ, pos, negsuc}
use ece344_operating_system.Wut.State.{
  Thread, yielding, joining, Tcb, State, ok, fault, exited, M, pure, ◌>>=◌, ◌>>◌, Event, returned,
  minus_one, is_minus_one,
}
use ece344_operating_system.Wut.Memory.{
  read_array, deref, deref_int, get_tcb, modify, set_current, new_thread_in_q, free_thread,
  insert_tail, is_empty, take_first, swap_context, set_context,
}

unfoldable pub wut_id : M ℕ
wut_id s = ok s.current s

-- A new queue entry for the thread in slot `i`, in place of its old one, at the end of the queue.
unfoldable pub requeue : ℕ → M (Unit {0})
requeue i = do
  n ← new_thread_in_q i
  p ← deref i
  old ← get_tcb p
  free_thread old.thread_in_q
  modify p (λ t. record t { thread_in_q = some n.address })
  insert_tail n

-- The running thread goes to the end of the queue, and the first of the queue runs.
unfoldable pub switch_to_next : M Event
switch_to_next s =
    (do
      from ← deref s.current
      c ← get_tcb from
      requeue c.id
      next ← take_first
      set_current next.thread_id
      to ← deref next.thread_id
      swap_context from to yielding)
      s

unfoldable pub wut_yield : M Event
wut_yield s = if is_empty s.queue then ok (returned minus_one) s else switch_to_next s

-- The blocking part of `wut_join`: the thread in slot `i`, whose TCB is `p`, is joined.
unfoldable pub block_on : (i p : ℕ) → M Event
block_on i p s =
    (do
      from ← deref s.current
      modify from (λ t. record t { block = true; join_to = pos i })
      modify p (λ t. record t { join = true; enable = false; join_from = pos s.current })
      next ← take_first
      to ← deref next.thread_id
      t ← get_tcb to
      set_current t.id
      swap_context from to (joining p))
      s

-- The test behind the bounds: NULL is tested for, and then dereferenced all the same.
unfoldable pub join_slot : (i : ℕ) → Option ℕ → M Event
join_slot i none s = fault
join_slot i (some p) s =
    if not (is_minus_one (s.tcb p).status) || (s.tcb p).join
    then ok (returned (s.tcb p).status) s
    else block_on i p s

unfoldable pub wut_join : ℤ → M Event
wut_join (negsuc i) s = ok (returned minus_one) s
wut_join (pos i) s =
    if (s.current == i) || leb s.thread_num i
    then ok (returned minus_one) s
    else (read_array i >>= join_slot i) s

-- status & 0xFF, of a number in two's complement.
abbrev pub low_byte : ℤ → ℤ
low_byte (pos n) = pos (n % 256)
low_byte (negsuc n) = pos (255 - n % 256)

-- The thread that joined the current one goes to the end of the queue.
unfoldable pub wake_joiner : (current : ℕ) → M (Unit {0})
wake_joiner p = do
  modify p (λ t. record t { join = false })
  c ← get_tcb p
  j ← deref_int c.join_from
  modify p (λ t. record t { join_from = minus_one })
  b ← get_tcb j
  requeue b.id

-- The first thread of the queue runs.
unfoldable pub continue_next : M Event
continue_next = do
  next ← take_first
  set_current next.thread_id
  to ← deref next.thread_id
  set_context to

-- munmap of the stack of a thread. `running` is the TCB of the thread on whose stack the code runs, if
-- it is not the stack of EXIT_CONTEXT; without that stack the process is killed, which is a fault. The
-- stack of thread 0 is the one of the process, and not in its TCB.
unfoldable pub delete_stack : (running : Option ℕ) → (p : ℕ) → Tcb → M (Unit {0})
delete_stack none p t s = ok tt s
delete_stack (some r) p t s = if t.stack && (r == p) then fault else ok tt s

unfoldable pub clear_thread : (running slot : Option ℕ) → M (Unit {0})
unfolding free_thread modify delete_stack
clear_thread running none = pure tt
clear_thread running (some p) = do
  t ← get_tcb p
  free_thread t.thread_in_q
  delete_stack running p t
  modify p (λ t. record t { thread_in_q = none; stack = false; ucontext = none })

-- The loop of `clear_global` from slot `i`, with the rounds that are left.
unfoldable pub clear_slots : (running : Option ℕ) → (rounds i : ℕ) → M (Unit {0})
unfolding read_array clear_thread
clear_slots running zero i = pure tt
clear_slots running (suc rounds) i = do
  slot ← read_array i
  clear_thread running slot
  λ s. ok tt (record s { array = update s.array i none })
  clear_slots running rounds (suc i)

unfoldable pub clear_global : (running : Option ℕ) → M (Unit {0})
unfolding clear_slots
clear_global running s = clear_slots running s.max_thread_num 0 s

-- Without a thread in the queue everything is freed and the process exits.
unfoldable pub run_next : (running : Option ℕ) → M Event
unfolding clear_global
run_next running s =
    if is_empty s.queue then (do clear_global running; λ _. exited) s else continue_next s

-- The status, unless the thread has one.
abbrev pub exit_status : ℤ → Tcb → Tcb
exit_status status t = if is_minus_one t.status then record t { status = low_byte status } else t

-- The body of `wut_exit`, on the stack of the thread itself or on that of EXIT_CONTEXT.
unfoldable pub exit_on : (own_stack : Bool) → ℤ → M Event
exit_on own_stack status s =
    (do
      p ← deref s.current
      modify p (exit_status status)
      t ← get_tcb p
      if t.join then wake_joiner p else pure tt
      run_next (if own_stack then some p else none))
      s

-- A call by a thread.
unfoldable pub wut_exit : ℤ → M Event
unfolding exit_on
wut_exit = exit_on true

-- EXIT_CONTEXT, which a thread continues with when its function returns: `wut_exit (0)`.
unfoldable pub exit_context : M Event
unfolding exit_on
exit_context = exit_on false (pos 0)
