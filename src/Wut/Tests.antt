-- ===== src/Wut/Tests.antt =====
-- Programs over wut/src/wut.c, and the theorems at them.
use ece344_operating_system.Common.{ℕ, ◌≡◌, refl, true, some, ◌++◌, List, [], ◌∷◌, arith}
use ece344_operating_system.Common.Int.{pos}
use ece344_operating_system.Wut.State.{State, ok, fault, exited, Event, entered, returned}
use ece344_operating_system.Wut.Memory.{
  read_array, deref, deref_int, get_tcb, modify, set_current, new_thread_in_q, free_thread,
  insert_tail, take_first, remove_thread, resume, swap_context, set_context,
}
use ece344_operating_system.Wut.Create.{
  wut_init, is_reusable, find_slot, claim_slot, malloc_tcb, resize_if_full, enqueue_new, wut_create,
}
use ece344_operating_system.Wut.Create.Slots.{Creates, IsSized}
use ece344_operating_system.Wut.Schedule.{
  requeue, switch_to_next, wut_yield, block_on, join_slot, wut_join, wake_joiner, continue_next,
  run_next, delete_stack, clear_thread, clear_slots, clear_global, exit_on, wut_exit, exit_context,
}
use ece344_operating_system.Wut.Schedule.Order.{IsReady, order}
use ece344_operating_system.Wut.Schedule.Turns.{yields, yields-turn}
use ece344_operating_system.Wut.Schedule.Ready.{wut_create-IsReady}
use ece344_operating_system.Wut.Schedule.Clear.{last_thread_ends}
use ece344_operating_system.Wut.Schedule.Join.{join-exit}
use ece344_operating_system.Wut.Cancel.{release_joiner, withdraw, cancel_slot, wut_cancel}
use ece344_operating_system.Wut.Program.{
  Call, create, yield, join, cancel, exit, finish, perform, Leads, here, next,
}
use ece344_operating_system.Wut.Program.Facts.{
  status_is_final, wut_create_succeeds, Reachable-IsSized,
}

-- What a program computes with.
program : Unit {0}
unfolding read_array deref deref_int get_tcb modify set_current new_thread_in_q free_thread
    insert_tail take_first remove_thread resume swap_context set_context wut_init is_reusable
    find_slot claim_slot malloc_tcb resize_if_full enqueue_new wut_create requeue switch_to_next
    wut_yield block_on join_slot wut_join wake_joiner continue_next delete_stack clear_thread
    clear_slots clear_global run_next exit_on wut_exit exit_context release_joiner withdraw
    cancel_slot wut_cancel perform
program = tt

-- The events of a sequence of calls; a fault and the end of the process stop it.
data Trace : Type 0 where
  ends faults exits : Trace
  sees : Event → Trace → Trace

trace : List Call → State → Trace
trace [] s = Trace.ends
trace (c ∷ cs) s = elim (perform c s) [
  | ok e t ↦ Trace.sees e (trace cs t)
  | fault ↦ Trace.faults
  | exited ↦ Trace.exits
]

-- Thread 0 joins thread 1, which exits with 5; then thread 2 runs and exits, and the join returns 5.
join_returns_status :
    trace (create 1 ∷ create 2 ∷ join (pos 1) ∷ exit (pos 5) ∷ exit (pos 0) ∷ []) wut_init
    ≡ Trace.sees (returned (pos 1)) (
        Trace.sees (returned (pos 2)) (
          Trace.sees
            (entered 1)
            (Trace.sees (entered 2) (Trace.sees (returned (pos 5)) Trace.ends))))
unfolding program trace
join_returns_status = refl

-- A thread that has been woken from its join is cancelled, and runs all the same.
cancelled_thread_runs :
    trace (create 1 ∷ create 2 ∷ join (pos 1) ∷ exit (pos 5) ∷ cancel (pos 0) ∷ yield ∷ []) wut_init
    ≡ Trace.sees (returned (pos 1)) (
        Trace.sees (returned (pos 2)) (
          Trace.sees (entered 1) (
            Trace.sees
              (entered 2)
              (Trace.sees (returned (pos 0)) (Trace.sees (returned (pos 5)) Trace.ends)))))
unfolding program trace
cancelled_thread_runs = refl

-- Thread 2 joins 0, which has joined 1; cancelling 1 makes 0 forget that it is joined, and 2 never
-- runs again: the process ends with 0.
joiner_is_lost :
    trace
      (create 1
        ∷ create 2
        ∷ create 3
        ∷ join (pos 1)
        ∷ yield
        ∷ join (pos 0)
        ∷ cancel (pos 1)
        ∷ exit (pos 0)
        ∷ finish
        ∷ [])
      wut_init
    ≡ Trace.sees (returned (pos 1)) (
        Trace.sees (returned (pos 2)) (
          Trace.sees (returned (pos 3)) (
            Trace.sees (entered 1) (
              Trace.sees (entered 2) (
                Trace.sees
                  (entered 3)
                  (Trace.sees (returned (pos 0)) (Trace.sees (returned (pos 128)) Trace.exits)))))))
unfolding program trace
joiner_is_lost = refl

-- An id below the count of threads whose slot is NULL: slot 1 was used twice.
join_of_null :
    trace (create 1 ∷ yield ∷ exit (pos 0) ∷ create 2 ∷ join (pos 2) ∷ []) wut_init
    ≡ Trace.sees (returned (pos 1)) (
        Trace.sees
          (entered 1)
          (Trace.sees (returned (pos 0)) (Trace.sees (returned (pos 1)) Trace.faults)))
unfolding program trace
join_of_null = refl

-- Two threads that join one another: the queue is empty, and its first entry is dereferenced.
join_deadlock :
    trace (create 1 ∷ join (pos 1) ∷ join (pos 0) ∷ []) wut_init
    ≡ Trace.sees (returned (pos 1)) (Trace.sees (entered 1) Trace.faults)
unfolding program trace
join_deadlock = refl

-- A state that a program reaches from `s`.
record Run (s : State) : Type 0 where
  last : State
  reach : Leads s last

abbrev one_thread : Run wut_init
unfolding program
one_thread = record { last = _; reach = next (create 1) _ here refl }

abbrev two_threads : Run wut_init
unfolding program
two_threads = record { last = _; reach = next (create 2) _ one_thread.reach refl }

-- Thread 1 has exited with 3.
abbrev one_ended : Run wut_init
unfolding program
one_ended = record {
  last = _;
  reach = next (exit (pos 3)) _ (next yield _ two_threads.reach refl) refl;
}

wut_create_succeeds_example :
    (i : ℕ) × (t : State) × (wut_create 9 one_ended.last ≡ ok (returned (pos i)) t)
    × Creates 9 one_ended.last i t
wut_create_succeeds_example = wut_create_succeeds 9 one_ended.reach

Reachable-IsSized_example : IsSized one_ended.last
Reachable-IsSized_example = Reachable-IsSized one_ended.reach

two_threads-IsReady : IsReady two_threads.last
unfolding program
two_threads-IsReady = record {
  slots = λ i p e. ground arith;
  here = (0, refl, refl, refl);
  apart = refl;
  entry = λ p a e f. ground arith;
  queued =
      ((1, refl, refl, refl, omega arith, refl), ((2, refl, refl, refl, omega arith, refl), tt));
  distinct = (refl, refl, (refl, refl, tt));
}

yields-turn_example :
    (t : State) × (yields 2 two_threads.last ≡ ok tt t) × (order t ≡ 2 ∷ 0 ∷ 1 ∷ []) × IsReady t
unfolding program
yields-turn_example = yields-turn (0 ∷ 1 ∷ []) (2 ∷ []) two_threads.last two_threads-IsReady refl

wut_create-IsReady_example :
    (i : ℕ) × (t : State) × (wut_create 9 two_threads.last ≡ ok (returned (pos i)) t)
    × IsSized t
    × IsReady t
    × (t.queue
        ≡ two_threads.last.queue
          ++ (record { address = two_threads.last.threads; thread_id = i }) ∷ [])
wut_create-IsReady_example =
    wut_create-IsReady 9 two_threads.last (Reachable-IsSized two_threads.reach) two_threads-IsReady

-- 261 is 5 in its low byte.
join-exit_example :
    (p : ℕ) × (t u : State) × (two_threads.last.array two_threads.last.current ≡ some p)
    × (wut_join (pos 1) two_threads.last ≡ ok (entered 1) t)
    × (wut_exit (pos 261) t ≡ continue_next u)
    × (u.queue
        ≡ (record { address = 1; thread_id = 2 }) ∷ (record { address = 2; thread_id = 0 }) ∷ [])
    × (u.array 1 ≡ some 1)
    × ((v : State)
        → (v.tcb p).ucontext ≡ (u.tcb p).ucontext
        → (v.tcb 1).status ≡ (u.tcb 1).status
        → v.array 1 ≡ u.array 1
        → (w : State) × (resume (v.tcb p).ucontext v ≡ ok (returned (pos 5)) w)
          × (is_reusable w 1 ≡ true))
unfolding program
join-exit_example =
    join-exit two_threads.last (record { address = 0; thread_id = 1 })
      (record { address = 1; thread_id = 2 } ∷ []) 1 1 (pos 261) two_threads-IsReady refl
      (omega arith) refl refl refl

abbrev later_on : Run one_ended.last
unfolding program
later_on = record { last = _; reach = next yield _ here refl }

status_is_final_example : (later_on.last.tcb 1).status ≡ pos 3
unfolding program
status_is_final_example =
    status_is_final 1 (pos 3) one_ended.reach later_on.reach (omega arith) refl refl

-- Thread 1 is left, on a stack of its own.
abbrev own_stack : Run wut_init
unfolding program
own_stack = record { last = _; reach = next (exit (pos 0)) _ one_thread.reach refl }

last_thread_ends_example :
    (exit_context own_stack.last ≡ exited) × (wut_exit (pos 7) own_stack.last ≡ fault)
unfolding program
last_thread_ends_example = last_thread_ends (pos 7) own_stack.last 1 (omega arith) refl refl refl

-- Thread 0 alone.
thread_0_exits : trace (exit (pos 7) ∷ []) wut_init ≡ Trace.exits
unfolding program trace
thread_0_exits = refl
