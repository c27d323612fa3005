-- ===== src/Wut/Cancel.antt =====
-- wut_cancel of wut/src/wut.c.
use ece344_operating_system.Common.{
  ℕ, false, not, ◌||◌, Option, none, some, ltb, ◌==◌, if◌then◌else◌,
}
use ece344_operating_system.Common.Int.{ℤ, pos, negsuc}
use ece344_operating_system.Wut.State.{
  ok, M, pure, ◌>>=◌, ◌>>◌, Event, returned, minus_one, is_minus_one,
}
use ece344_operating_system.Wut.Memory.{
  read_array, deref_int, get_tcb, modify, new_thread_in_q, free_thread, insert_tail, remove_thread,
}

-- The thread id of a queue entry for a thread that a `join_from` names.
abbrev pub int_index : ℤ → ℕ
int_index (pos i) = i
int_index (negsuc i) = 0

-- The thread that joined the cancelled one goes to the end of the queue, with a new entry.
unfoldable pub release_joiner : (cancelled : ℕ) → M (Unit {0})
release_joiner p = do
  c ← get_tcb p
  n ← new_thread_in_q (int_index c.join_from)
  insert_tail n
  j ← deref_int c.join_from
  modify j (λ t. record t { join = false; join_to = minus_one })
  old ← get_tcb j
  free_thread old.thread_in_q
  modify j (λ t. record t { thread_in_q = some n.address; block = false })

-- The cancelled thread leaves the join that it waits in, or the ready queue.
unfoldable pub withdraw : (cancelled : ℕ) → M (Unit {0})
withdraw p s =
    if (s.tcb p).block
    then (do
      modify p (λ t. record t { block = false })
      q ← deref_int (s.tcb p).join_to
      modify q (λ t. record t { join_from = minus_one; join = false }))
        s
    else (do
      modify p (λ t. record t { stack = false; ucontext = none })
      remove_thread (s.tcb p).thread_in_q
      free_thread (s.tcb p).thread_in_q
      modify p (λ t. record t { thread_in_q = none }))
        s

unfoldable pub cancel_slot : Option ℕ → M Event
cancel_slot none s = ok (returned minus_one) s
cancel_slot (some p) s =
    if not (is_minus_one (s.tcb p).status)
    then ok (returned minus_one) s
    else (do
      modify p (λ t. record t { status = pos 128 })
      if not (is_minus_one (s.tcb p).join_from) then release_joiner p else pure tt
      withdraw p
      pure (returned (pos 0)))
        s

unfoldable pub wut_cancel : ℤ → M Event
wut_cancel (negsuc i) s = ok (returned minus_one) s
wut_cancel (pos i) s =
    if (i == s.current) || ltb s.thread_num i
    then ok (returned minus_one) s
    else (read_array i >>= cancel_slot) s
