-- ===== src/Wut/Schedule/Slots.antt =====
-- The loop of clear_global of wut/src/wut.c.
use ece344_operating_system.Common.{
  true, false, ℕ, zero, suc, ◌+◌, ◌≤◌, ◌<◌, ◌≡◌, ◌≢◌, refl, ◌∙◌, Option, none, some, [], arith,
  ◌==◌, lt→ltb, Option-cases, inl, inr, ℕ_discrete,
}
use ece344_operating_system.Common.Family.{update}
use ece344_operating_system.Wut.State.{State, ok, fault}
use ece344_operating_system.Wut.Memory.{read_array, free_thread, get_tcb, modify}
use ece344_operating_system.Wut.Schedule.{delete_stack, clear_thread, clear_slots}

free_thread-empty : (o : Option ℕ) (s : State) → s.queue ≡ [] → free_thread o s ≡ ok tt s
unfolding free_thread
free_thread-empty none s empty = refl
free_thread-empty (some a) s empty = rw (free_thread, empty) refl

-- The running stack is not one that a TCB has.
abbrev pub IsElsewhere : Option ℕ → State → Type 0
IsElsewhere running s = (r : ℕ) → running ≡ some r → (s.tcb r).stack ≡ false

delete_stack-elsewhere :
    (running : Option ℕ) (p : ℕ) (s : State)
    → IsElsewhere running s
    → delete_stack running p (s.tcb p) s ≡ ok tt s
unfolding delete_stack
delete_stack-elsewhere none p s away = refl
delete_stack-elsewhere (some r) p s away = let h = away r refl in ground (arith, h)

-- A TCB without what it has on the heap.
abbrev emptied : ℕ → State → State
emptied p s = record s {
  tcb = update s.tcb p (record (s.tcb p) { thread_in_q = none; stack = false; ucontext = none });
}

clear_thread-emptied :
    (running : Option ℕ) (p : ℕ) (s : State)
    → s.queue ≡ []
    → delete_stack running p (s.tcb p) s ≡ ok tt s
    → clear_thread running (some p) s ≡ ok tt (emptied p s)
unfolding clear_thread modify get_tcb
clear_thread-emptied running p s empty deleted =
    rw (free_thread-empty (s.tcb p).thread_in_q s empty, deleted) refl

-- The loop goes on behind a slot that was cleared.
clear_slots-next :
    (running : Option ℕ) (rounds i : ℕ) (s t : State)
    → i < s.max_thread_num
    → clear_thread running (s.array i) s ≡ ok tt t
    → clear_slots running (suc rounds) i s
      ≡ clear_slots running rounds (suc i) (record t { array = update t.array i none })
unfolding clear_slots read_array
clear_slots-next running rounds i s t lt run =
    rw (read_array, lt→ltb i s.max_thread_num lt, run) refl

clear_thread-none :
    (running : Option ℕ) (i : ℕ) (s : State)
    → s.array i ≡ none
    → clear_thread running (s.array i) s ≡ ok tt s
unfolding clear_thread
clear_thread-none running i s at = rw at refl

clear_thread-some :
    (running : Option ℕ) (i p : ℕ) (s : State)
    → s.queue ≡ []
    → delete_stack running p (s.tcb p) s ≡ ok tt s
    → s.array i ≡ some p
    → clear_thread running (s.array i) s ≡ ok tt (emptied p s)
clear_thread-some running i p s empty deleted at =
    rw at (clear_thread-emptied running p s empty deleted)

delete_stack-other : (p q : ℕ) (s : State) → p ≢ q → delete_stack (some p) q (s.tcb q) s ≡ ok tt s
unfolding delete_stack
delete_stack-other p q s other = ground (arith, other)

clear_slots-stops :
    (p rounds i : ℕ) (s : State)
    → s.queue ≡ []
    → (s.tcb p).stack ≡ true
    → i < s.max_thread_num
    → s.array i ≡ some p
    → clear_slots (some p) (suc rounds) i s ≡ fault
unfolding clear_slots read_array clear_thread get_tcb delete_stack
clear_slots-stops p rounds i s empty own lt here =
    let it : (p == p) ≡ true = ground arith in
    rw
      (
        read_array,
        lt→ltb i s.max_thread_num lt,
        here,
        free_thread-empty (s.tcb p).thread_in_q s empty,
        own,
        it,
      )
      refl

-- The slots are cleared, if none of them has the running stack.
pub clear_slots-elsewhere :
    (running : Option ℕ) (rounds i : ℕ) (s : State)
    → s.queue ≡ []
    → IsElsewhere running s
    → i + rounds ≤ s.max_thread_num
    → (t : State) × (clear_slots running rounds i s ≡ ok tt t)
unfolding clear_slots
clear_slots-elsewhere running zero i s empty away le = (s, refl)
clear_slots-elsewhere running (suc rounds) i s empty away le = elim (Option-cases (s.array i)) [
  | inl at ↦
      let (u, later) =
        clear_slots-elsewhere running rounds (suc i) (record s { array = update s.array i none })
          empty away (omega (arith, le)) in
      (
        u,
        clear_slots-next running rounds i s s (omega (arith, le)) (clear_thread-none running i s at)
            ∙ later,
      )
  | inr (p, at) ↦
      let (u, later) =
        clear_slots-elsewhere running rounds (suc i)
          (record (emptied p s) { array = update s.array i none }) empty
          (λ r e. let h = away r e in ground (arith, h)) (omega (arith, le)) in
      (
        u,
        clear_slots-next running rounds i s (emptied p s) (omega (arith, le))
              (clear_thread-some running i p s empty (delete_stack-elsewhere running p s away) at)
            ∙ later,
      )
]

-- The loop ends at the slot of the thread on whose stack it runs.
pub clear_slots-fault :
    (p rounds i k : ℕ) (s : State)
    → s.queue ≡ []
    → (s.tcb p).stack ≡ true
    → s.array k ≡ some p
    → i ≤ k
    → k < i + rounds
    → i + rounds ≤ s.max_thread_num
    → clear_slots (some p) rounds i s ≡ fault
clear_slots-fault p zero i k s empty own at from below le = absurd (omega (arith, from, below))
clear_slots-fault p (suc rounds) i k s empty own at from below le =
    elim (Option-cases (s.array i)) [
      | inl here ↦
          let later : suc i ≤ k = ground (arith, from, at, here) in
          clear_slots-next (some p) rounds i s s (omega (arith, le))
            (clear_thread-none (some p) i s here)
          ∙ clear_slots-fault p rounds (suc i) k (record s { array = update s.array i none }) empty
              own (ground (arith, later, at)) later (omega (arith, below)) (omega (arith, le))
      | inr (q, here) ↦ elim (ℕ_discrete p q) [
        | yes same ↦ clear_slots-stops p rounds i s empty own (omega (arith, le)) (rw same here)
        | no other ↦
            let later : suc i ≤ k = ground (arith, from, at, here, other) in
            clear_slots-next (some p) rounds i s (emptied q s) (omega (arith, le))
              (clear_thread-some (some p) i q s empty (delete_stack-other p q s other) here)
            ∙ clear_slots-fault p rounds (suc i) k
                (record (emptied q s) { array = update s.array i none }) empty
                (ground (arith, own, other)) (ground (arith, later, at)) later
                (omega (arith, below)) (omega (arith, le))
      ]
    ]
