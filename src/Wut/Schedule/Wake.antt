-- ===== src/Wut/Schedule/Wake.antt =====
-- The part of wut_exit of wut/src/wut.c that wakes the joining thread.
use ece344_operating_system.Common.{
  ℕ, ◌+◌, ◌<◌, ◌≡◌, ◌≢◌, refl, false, some, [], ◌∷◌, ◌++◌, arith, Option-cases, inl, inr,
}
use ece344_operating_system.Common.Family.{update}
use ece344_operating_system.Common.Int.{ℤ, pos, negsuc}
use ece344_operating_system.Wut.State.{State, ok, is_minus_one, minus_one}
use ece344_operating_system.Wut.Memory.{
  deref, deref_int, get_tcb, modify, new_thread_in_q, free_thread, insert_tail, has_address,
}
use ece344_operating_system.Wut.Schedule.{requeue, low_byte, wake_joiner}

pub low_byte_lem : (status : ℤ) → is_minus_one (low_byte status) ≡ false
low_byte_lem (pos n) = refl
low_byte_lem (negsuc n) = refl

abbrev pub with_joiner : (r p j : ℕ) → State → State
with_joiner r p j s = record s {
  threads = s.threads + 1;
  queue = s.queue ++ (record { address = s.threads; thread_id = j }) ∷ [];
  tcb =
      update (update s.tcb r (record (s.tcb r) { join = false; join_from = minus_one })) p
        (record (s.tcb p) { thread_in_q = some s.threads });
}

-- `wake_joiner` of the TCB `r`, which the thread `j` with TCB `p` joined.
pub wake_joiner_lem :
    (s : State) (r p j : ℕ)
    → p ≢ r
    → j < s.max_thread_num
    → s.array j ≡ some p
    → (s.tcb p).id ≡ j
    → (s.tcb r).join_from ≡ pos j
    → ((a : ℕ) → (s.tcb p).thread_in_q ≡ some a → has_address a s.queue ≡ false)
    → wake_joiner r s ≡ ok tt (with_joiner r p j s)
unfolding wake_joiner get_tcb modify deref_int requeue deref new_thread_in_q free_thread insert_tail
wake_joiner_lem s r p j ne lt at id from free = elim (Option-cases (s.tcb p).thread_in_q) [
  | inl e ↦ ground (arith, e)
  | inr (a, e) ↦ ground (arith, e, free a e)
]
