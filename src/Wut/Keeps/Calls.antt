-- ===== src/Wut/Keeps/Calls.antt =====
-- Every operation of wut/src/wut.c but wut_create keeps what its single writes keep.
use ece344_operating_system.Common.{
  ℕ, ◌≡◌, refl, Bool, true, false, if◌then◌else◌, Option, none, some, ◌==◌, ltb, leb, not, ◌||◌,
  Bool-cases, inl, inr,
}
use ece344_operating_system.Common.Int.{ℤ, pos, negsuc}
use ece344_operating_system.Wut.State.{yielding, joining, State, pure, is_minus_one}
use ece344_operating_system.Wut.Memory.{is_empty, modify}
use ece344_operating_system.Wut.Schedule.{
  requeue, switch_to_next, wut_yield, block_on, join_slot, wut_join, wake_joiner, continue_next,
  run_next, clear_global, exit_status, exit_on, wut_exit, exit_context,
}
use ece344_operating_system.Wut.Cancel.{release_joiner, withdraw, cancel_slot, wut_cancel}
use ece344_operating_system.Wut.Keeps.{
  IsGentle, IsKept, Keeps, returns, faults, bind_outcome-Keeps, if-Keeps, exited-Keeps, if_M-Keeps,
  deref-Keeps, deref_int-Keeps, get_tcb-Keeps, modify-Keeps, new_thread_in_q-Keeps,
  free_thread-Keeps, insert_tail-Keeps, set_current-Keeps, take_first-Keeps, remove_thread-Keeps,
  read_array-Keeps, swap_context-Keeps, set_context-Keeps,
}

exit_status-IsGentle : (status : ℤ) → IsGentle (exit_status status)
exit_status-IsGentle status t e = rw e

module _ {K : State → Type 0} (kept : IsKept K) where
  requeue-Keeps : (i : ℕ) (s : State) → K s → Keeps K (requeue i s)
  unfolding requeue
  requeue-Keeps i s k = bind_outcome-Keeps kept (new_thread_in_q-Keeps kept i k) λ n s k.
      bind_outcome-Keeps kept (deref-Keeps kept i k) λ p s k.
        bind_outcome-Keeps kept (get_tcb-Keeps kept p k) λ old s k.
          bind_outcome-Keeps kept (free_thread-Keeps kept old.thread_in_q k) λ _ s k.
            bind_outcome-Keeps kept (modify-Keeps kept p _ (λ t e. refl) k)
              λ _ s k. insert_tail-Keeps kept n k

  switch_to_next-Keeps : (s : State) → K s → Keeps K (switch_to_next s)
  unfolding switch_to_next
  switch_to_next-Keeps s k = bind_outcome-Keeps kept (deref-Keeps kept s.current k) λ from s k.
      bind_outcome-Keeps kept (get_tcb-Keeps kept from k) λ c s k.
        bind_outcome-Keeps kept (requeue-Keeps c.id s k) λ _ s k.
          bind_outcome-Keeps kept (take_first-Keeps kept k) λ next s k.
            bind_outcome-Keeps kept (set_current-Keeps kept next.thread_id k) λ _ s k.
              bind_outcome-Keeps kept (deref-Keeps kept next.thread_id k)
                λ to s k. swap_context-Keeps kept from to yielding k

  pub wut_yield-Keeps : (s : State) → K s → Keeps K (wut_yield s)
  unfolding wut_yield
  wut_yield-Keeps s k = if-Keeps kept (is_empty s.queue) (returns k) (switch_to_next-Keeps s k)

  block_on-Keeps : (i p : ℕ) (s : State) → K s → Keeps K (block_on i p s)
  unfolding block_on
  block_on-Keeps i p s k = bind_outcome-Keeps kept (deref-Keeps kept s.current k) λ from s k.
      bind_outcome-Keeps kept (modify-Keeps kept from _ (λ t e. refl) k) λ _ s k.
        bind_outcome-Keeps kept (modify-Keeps kept p _ (λ t e. refl) k) λ _ s k.
          bind_outcome-Keeps kept (take_first-Keeps kept k) λ next s k.
            bind_outcome-Keeps kept (deref-Keeps kept next.thread_id k) λ to s k.
              bind_outcome-Keeps kept (get_tcb-Keeps kept to k) λ t s k.
                bind_outcome-Keeps kept (set_current-Keeps kept t.id k)
                  λ _ s k. swap_context-Keeps kept from to (joining p) k

  join_slot-Keeps : (i : ℕ) (o : Option ℕ) (s : State) → K s → Keeps K (join_slot i o s)
  unfolding join_slot
  join_slot-Keeps i none s k = faults
  join_slot-Keeps i (some p) s k =
      if-Keeps kept (not (is_minus_one (s.tcb p).status) || (s.tcb p).join) (returns k)
        (block_on-Keeps i p s k)

  pub wut_join-Keeps : (id : ℤ) (s : State) → K s → Keeps K (wut_join id s)
  unfolding wut_join
  wut_join-Keeps (negsuc i) s k = returns k
  wut_join-Keeps (pos i) s k =
      if-Keeps kept ((s.current == i) || leb s.thread_num i) (returns k)
        (bind_outcome-Keeps kept (read_array-Keeps kept i k) λ o s k. join_slot-Keeps i o s k)

  wake_joiner-Keeps : (p : ℕ) (s : State) → K s → Keeps K (wake_joiner p s)
  unfolding wake_joiner
  wake_joiner-Keeps p s k = bind_outcome-Keeps kept (modify-Keeps kept p _ (λ t e. refl) k) λ _ s k.
      bind_outcome-Keeps kept (get_tcb-Keeps kept p k) λ c s k.
        bind_outcome-Keeps kept (deref_int-Keeps kept c.join_from k) λ j s k.
          bind_outcome-Keeps kept (modify-Keeps kept p _ (λ t e. refl) k) λ _ s k.
            bind_outcome-Keeps kept (get_tcb-Keeps kept j k) λ b s k. requeue-Keeps b.id s k

  continue_next-Keeps : (s : State) → K s → Keeps K (continue_next s)
  unfolding continue_next
  continue_next-Keeps s k = bind_outcome-Keeps kept (take_first-Keeps kept k) λ next s k.
      bind_outcome-Keeps kept (set_current-Keeps kept next.thread_id k) λ _ s k.
        bind_outcome-Keeps kept (deref-Keeps kept next.thread_id k)
          λ to s k. set_context-Keeps kept to k

  run_next-Keeps : (running : Option ℕ) (s : State) → K s → Keeps K (run_next running s)
  unfolding run_next
  run_next-Keeps running s k =
      if-Keeps kept (is_empty s.queue) (exited-Keeps kept (clear_global running s))
        (continue_next-Keeps s k)

  exit_on-Keeps : (own : Bool) (status : ℤ) (s : State) → K s → Keeps K (exit_on own status s)
  unfolding exit_on
  exit_on-Keeps own status s k = bind_outcome-Keeps kept (deref-Keeps kept s.current k) λ p s k.
      bind_outcome-Keeps kept (modify-Keeps kept p _ (exit_status-IsGentle status) k) λ _ s k.
        bind_outcome-Keeps kept (get_tcb-Keeps kept p k) λ t s k.
          bind_outcome-Keeps kept
            (if_M-Keeps kept t.join (wake_joiner p) (pure tt) s (wake_joiner-Keeps p s k)
              (returns k))
            λ _ s k. run_next-Keeps (if own then some p else none) s k

  pub wut_exit-Keeps : (status : ℤ) (s : State) → K s → Keeps K (wut_exit status s)
  unfolding wut_exit
  wut_exit-Keeps = exit_on-Keeps true

  pub exit_context-Keeps : (s : State) → K s → Keeps K (exit_context s)
  unfolding exit_context
  exit_context-Keeps = exit_on-Keeps false (pos 0)

  release_joiner-Keeps : (p : ℕ) (s : State) → K s → Keeps K (release_joiner p s)
  unfolding release_joiner
  release_joiner-Keeps p s k = bind_outcome-Keeps kept (get_tcb-Keeps kept p k) λ c s k.
      bind_outcome-Keeps kept (new_thread_in_q-Keeps kept _ k) λ n s k.
        bind_outcome-Keeps kept (insert_tail-Keeps kept n k) λ _ s k.
          bind_outcome-Keeps kept (deref_int-Keeps kept c.join_from k) λ j s k.
            bind_outcome-Keeps kept (modify-Keeps kept j _ (λ t e. refl) k) λ _ s k.
              bind_outcome-Keeps kept (get_tcb-Keeps kept j k) λ old s k.
                bind_outcome-Keeps kept (free_thread-Keeps kept old.thread_in_q k)
                  λ _ s k. modify-Keeps kept j _ (λ t e. refl) k

  withdraw-Keeps : (p : ℕ) (s : State) → K s → Keeps K (withdraw p s)
  unfolding withdraw
  withdraw-Keeps p s k =
      if-Keeps kept (s.tcb p).block
        (bind_outcome-Keeps kept (modify-Keeps kept p _ (λ t e. refl) k) λ _ r k.
          bind_outcome-Keeps kept (deref_int-Keeps kept (s.tcb p).join_to k)
            λ q r k. modify-Keeps kept q _ (λ t e. refl) k)
        (bind_outcome-Keeps kept (modify-Keeps kept p _ (λ t e. refl) k) λ _ r k.
          bind_outcome-Keeps kept (remove_thread-Keeps kept (s.tcb p).thread_in_q k) λ _ r k.
            bind_outcome-Keeps kept (free_thread-Keeps kept (s.tcb p).thread_in_q k)
              λ _ r k. modify-Keeps kept p _ (λ t e. refl) k)

  -- The write of the status 128, to a thread that has not ended.
  cancelled-Keeps :
      (p : ℕ) (s : State)
      → is_minus_one (s.tcb p).status ≡ true
      → K s
      → Keeps K (modify p (λ t. record t { status = pos 128 }) s)
  unfolding modify
  cancelled-Keeps p s running k = returns (kept.tcb s p _ (λ e. absurd (cc)) k)

  cancel_slot-Keeps : (o : Option ℕ) (s : State) → K s → Keeps K (cancel_slot o s)
  unfolding cancel_slot
  cancel_slot-Keeps none s k = returns k
  cancel_slot-Keeps (some p) s k = elim (Bool-cases (is_minus_one (s.tcb p).status)) [
    | inr ended ↦ rw ended (returns k)
    | inl running ↦ rw running (
        bind_outcome-Keeps kept (cancelled-Keeps p s running k) λ _ r k.
          bind_outcome-Keeps kept
            (if_M-Keeps kept (not (is_minus_one (s.tcb p).join_from)) (release_joiner p) (pure tt) r
              (release_joiner-Keeps p r k) (returns k))
            λ _ r k. bind_outcome-Keeps kept (withdraw-Keeps p r k) λ _ r k. returns k)
  ]

  pub wut_cancel-Keeps : (id : ℤ) (s : State) → K s → Keeps K (wut_cancel id s)
  unfolding wut_cancel
  wut_cancel-Keeps (negsuc i) s k = returns k
  wut_cancel-Keeps (pos i) s k =
      if-Keeps kept ((i == s.current) || ltb s.thread_num i) (returns k)
        (bind_outcome-Keeps kept (read_array-Keeps kept i k) λ o s k. cancel_slot-Keeps o s k)
