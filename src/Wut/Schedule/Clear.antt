-- ===== src/Wut/Schedule/Clear.antt =====
-- clear_global of wut/src/wut.c, before the process exits.
use ece344_operating_system.Common.{
  Bool, true, false, ℕ, ◌<◌, ◌≡◌, refl, ◌∙◌, ap, Option, none, some, [], arith, if◌then◌else◌,
  lt→ltb, Bool-cases, inl, inr,
}
use ece344_operating_system.Common.Family.{update}
use ece344_operating_system.Common.Int.{ℤ, pos}
use ece344_operating_system.Wut.State.{Tcb, State, fault, exited, bind_outcome}
use ece344_operating_system.Wut.Memory.{deref, get_tcb, modify, is_empty}
use ece344_operating_system.Wut.Schedule.{
  clear_slots, clear_global, continue_next, run_next, exit_status, exit_on, wut_exit, exit_context,
}
use ece344_operating_system.Wut.Schedule.Slots.{
  IsElsewhere, clear_slots-elsewhere, clear_slots-fault,
}

run_next-exited :
    (running : Option ℕ) (s : State)
    → s.queue ≡ []
    → IsElsewhere running s
    → run_next running s ≡ exited
unfolding run_next clear_global
run_next-exited running s empty away =
    let (t, run) = clear_slots-elsewhere running s.max_thread_num 0 s empty away (omega arith) in
    ap
      (λ b.
        if b
        then bind_outcome (clear_slots running s.max_thread_num 0 s) (λ _ _. exited)
        else continue_next s)
      (ap is_empty empty)
    ∙ ap (λ o. bind_outcome o (λ _ _. exited)) run

run_next-fault :
    (p k : ℕ) (s : State)
    → s.queue ≡ []
    → (s.tcb p).stack ≡ true
    → s.array k ≡ some p
    → k < s.max_thread_num
    → run_next (some p) s ≡ fault
unfolding run_next clear_global
run_next-fault p k s empty own at lt =
    ap
      (λ b.
        if b
        then bind_outcome (clear_slots (some p) s.max_thread_num 0 s) (λ _ _. exited)
        else continue_next s)
      (ap is_empty empty)
    ∙ ap (λ o. bind_outcome o (λ _ _. exited))
        (clear_slots-fault p s.max_thread_num 0 k s empty own at (omega arith) (omega (arith, lt))
          (omega arith))

exit_status-join : (status : ℤ) (t : Tcb) → (exit_status status t).join ≡ t.join
exit_status-join status t = ground arith

exit_status-stack : (status : ℤ) (t : Tcb) → (exit_status status t).stack ≡ t.stack
exit_status-stack status t = ground arith

module _ (status : ℤ) (s : State) (p : ℕ) (lt : s.current < s.max_thread_num)
    (at : s.array s.current ≡ some p) (alone : (s.tcb p).join ≡ false) (empty : s.queue ≡ []) where
  abbrev ended : State
  ended = record s { tcb = update s.tcb p (exit_status status (s.tcb p)) }

  ended-stack : (ended.tcb p).stack ≡ (s.tcb p).stack
  ended-stack = ground (arith, exit_status-stack status (s.tcb p))

  exit_on-run_next :
      (own : Bool) → exit_on own status s ≡ run_next (if own then some p else none) ended
  unfolding exit_on deref modify get_tcb
  exit_on-run_next own =
      let joined : (ended.tcb p).join ≡ false =
        ground (arith, exit_status-join status (s.tcb p), alone) in
      rw (deref, lt→ltb s.current s.max_thread_num lt, at, joined) refl

  own_stack-exited : (s.tcb p).stack ≡ false → wut_exit status s ≡ exited
  unfolding wut_exit
  own_stack-exited none_own =
      exit_on-run_next true
      ∙ run_next-exited (some p) ended empty
          (λ r e. let same : p ≡ r = ground (arith, e) in rw (← same) (ended-stack ∙ none_own))

  own_stack-fault : (s.tcb p).stack ≡ true → wut_exit status s ≡ fault
  unfolding wut_exit
  own_stack-fault own =
      exit_on-run_next true ∙ run_next-fault p s.current ended empty (ended-stack ∙ own) at lt

  wut_exit-own_stack : wut_exit status s ≡ (if (s.tcb p).stack then fault else exited)
  wut_exit-own_stack = elim (Bool-cases (s.tcb p).stack) [
    | inl own ↦ rw own (own_stack-fault own)
    | inr none_own ↦ rw none_own (own_stack-exited none_own)
  ]

exit_context-exited :
    (s : State) (p : ℕ)
    → s.current < s.max_thread_num
    → s.array s.current ≡ some p
    → (s.tcb p).join ≡ false
    → s.queue ≡ []
    → exit_context s ≡ exited
unfolding exit_context
exit_context-exited s p lt at alone empty =
    exit_on-run_next (pos 0) s p lt at alone empty false
    ∙ run_next-exited none (ended (pos 0) s p lt at alone empty) empty
        (λ r e. absurd (ground (arith, e)))

-- The last thread, which is in its slot and is not joined, ends. When its function returns, all slots can
-- be cleared and the process exits. So it does when the thread calls `wut_exit` and runs on the stack of
-- the process; but a thread that has a stack of its own unmaps it there while it runs on it.
pub last_thread_ends :
    (status : ℤ) (s : State) (p : ℕ)
    → s.current < s.max_thread_num
    → s.array s.current ≡ some p
    → (s.tcb p).join ≡ false
    → s.queue ≡ []
    → (exit_context s ≡ exited) × (wut_exit status s ≡ (if (s.tcb p).stack then fault else exited))
last_thread_ends status s p lt at alone empty =
    (exit_context-exited s p lt at alone empty, wut_exit-own_stack status s p lt at alone empty)
