-- ===== src/Pht/Tester/Threads/Joined.antt =====
-- What the runs of the threads of pht/src/pht-tester.c come to.
use ece344_operating_system.Common.{
  ℕ, zero, suc, ◌≤◌, ◌<◌, ◌≡◌, ◌≢◌, refl, subst, ◌∙◌, sym, Bool, true, false, ◌||◌, arith, ◌⊎◌, inl,
  inr, ℕ_discrete, dec_lt,
}
use ece344_operating_system.Pht.Hash.{str_eq_refl}
use ece344_operating_system.Pht.Base
use ece344_operating_system.Pht.Locked.{
  Pc, idle, locking, walking, found, linking, unlocking, System, init, call, lock, differs, matches,
  ends, assign, link, publish, unlock, Reach, start, later,
}
use ece344_operating_system.Pht.Locked.Safety.{IsQuiet, called, contains-called}
use ece344_operating_system.Pht.Locked.Progress.{no_deadlock}
use ece344_operating_system.Pht.Tester.{count_missing}
use ece344_operating_system.Pht.Tester.Missing.{count_missing-none}
use ece344_operating_system.Pht.Tester.Threads.{
  Run, key_at, RunStep, next_call, inside, ReachRun, created, stepped, IsJoined,
}

-- A run is one of the threads that call what they like.
module _ (mutex_of : ℕ → ℕ) (bytes : ℕ → ℕ) (threads size : ℕ) where
  ReachRun-Reach :
      {r : Run} → ReachRun mutex_of bytes threads size r → Reach mutex_of threads r.system
  ReachRun-Reach created = start
  ReachRun-Reach (stepped before (next_call i lt quiet more)) =
      later (ReachRun-Reach before) (call i _ _ lt quiet)
  ReachRun-Reach (stepped before (inside t step same)) = later (ReachRun-Reach before) step

-- No other thread is in a call.
others_idle :
    {mutex_of : ℕ → ℕ} {n : ℕ} {s : System} → Reach mutex_of n s → (i : ℕ) → n ≤ i → s.pc i ≡ idle
unfolding init
others_idle start i le = refl
others_idle (later r (call k _ _ lt _)) i le = ground (arith, others_idle r i le, lt, le)
others_idle (later r (lock k _ _ lt _ _)) i le = ground (arith, others_idle r i le, lt, le)
others_idle (later r (differs k _ _ _ _ lt _ _ _)) i le = ground (arith, others_idle r i le, lt, le)
others_idle (later r (matches k _ _ _ _ lt _ _ _)) i le = ground (arith, others_idle r i le, lt, le)
others_idle (later r (ends k _ _ _ lt _ _)) i le = ground (arith, others_idle r i le, lt, le)
others_idle (later r (assign k _ _ _ lt _)) i le = ground (arith, others_idle r i le, lt, le)
others_idle (later r (link k _ _ lt _)) i le = ground (arith, others_idle r i le, lt, le)
others_idle (later r (publish k _ _ _ lt _)) i le = ground (arith, others_idle r i le, lt, le)
others_idle (later r (unlock k _ _ lt _)) i le = ground (arith, others_idle r i le, lt, le)

or_earlier : (a : Bool) {b : Bool} → b ≡ true → (a || b) ≡ true
or_earlier true h = refl
or_earlier false h = h

-- Some thread satisfies one of two conditions, or all satisfy a third.
find_thread :
    (A B C : ℕ → Type 0) (n : ℕ)
    → ((i : ℕ) → i < n → A i ⊎ B i ⊎ C i)
    → ((i : ℕ) × (i < n) × (A i ⊎ B i)) ⊎ ((i : ℕ) → i < n → C i)
find_thread A B C zero test = inr (λ i lt. absurd (omega (arith, lt)))
find_thread A B C (suc n) test = elim (test n (omega arith)) [
  | inl a ↦ inl (n, omega arith, inl a)
  | inr (inl b) ↦ inl (n, omega arith, inr b)
  | inr (inr c) ↦ elim (find_thread A B C n (λ i lt. test i (omega (arith, lt)))) [
    | inl (i, lt, ab) ↦ inl (i, omega (arith, lt), ab)
    | inr all ↦ inr (λ i lt. elim (ℕ_discrete n i) [
      | yes e ↦ subst C e c
      | no other ↦ all i (omega (arith, lt, other))
    ])
  ]
]

idle_or_busy : (p : Pc) → (p ≡ idle) ⊎ (p ≢ idle)
idle_or_busy idle = inl refl
idle_or_busy (locking k v) = inr (λ e. absurd (cc))
idle_or_busy (walking k v p) = inr (λ e. absurd (cc))
idle_or_busy (found k v o) = inr (λ e. absurd (cc))
idle_or_busy (linking k v r) = inr (λ e. absurd (cc))
idle_or_busy (unlocking k v) = inr (λ e. absurd (cc))

-- A thread stands in a call, before its next call, or behind its loop.
stand :
    (size : ℕ) (r : Run) (i : ℕ)
    → (r.system.pc i ≢ idle)
      ⊎ ((r.system.pc i ≡ idle) × (r.next i < size))
      ⊎ ((r.system.pc i ≡ idle) × (size ≤ r.next i))
stand size r i = elim (idle_or_busy (r.system.pc i)) [
  | inr busy ↦ inl busy
  | inl quiet ↦ elim (dec_lt (r.next i) size) [
    | yes more ↦ inr (inl (quiet, more))
    | no done ↦ inr (inr (quiet, omega (arith, done)))
  ]
]

module _ {mutex_of : ℕ → ℕ} {bytes : ℕ → ℕ} {threads size : ℕ} where
  -- What a thread's loop is behind was called.
  called_before :
      {r : Run}
      → ReachRun mutex_of bytes threads size r
      → (i j : ℕ) → j < r.next i
      → called (key_at bytes size i j) r.system.calls ≡ true
  called_before created i j lt = absurd (omega (arith, lt))
  called_before (stepped {r} before (next_call k lt quiet more)) i j below = elim (ℕ_discrete k i) [
    | yes e ↦ elim (ℕ_discrete (r.next k) j) [
      | yes f ↦
          let key = key_at bytes size k (r.next k) in
          let same : key_at bytes size i j ≡ key = rw (sym e, sym f) refl in
          rw (same, str_eq_refl key) refl
      | no g ↦ or_earlier _ (called_before before i j (ground (arith, below, e, g)))
    ]
    | no g ↦ or_earlier _ (called_before before i j (ground (arith, below, g)))
  ]
  called_before (stepped before (inside t step same)) i j below =
      rw same (called_before before i j below)

  -- Whatever the strings are and however the threads were scheduled, once all of them were joined the
  -- table misses none of the strings.
  pub run-count_missing :
      {r : Run}
      → ReachRun mutex_of bytes threads size r
      → IsJoined mutex_of bytes threads size r
      → count_missing bytes threads size (Base.contains r.system.table) ≡ 0
  run-count_missing {r} reach joined =
      count_missing-none bytes threads size (Base.contains r.system.table) (λ i j li lj.
        contains-called (key_at bytes size i j) (ReachRun-Reach mutex_of bytes threads size reach)
          quiet
        ∙ called_before reach i j (omega (arith, lj, (joined i li).1)))
    where
      quiet : IsQuiet r.system
      quiet i = elim (dec_lt i threads) [
        | yes lt ↦ (joined i lt).0
        | no ge ↦
            others_idle (ReachRun-Reach mutex_of bytes threads size reach) i (omega (arith, ge))
      ]

  -- A run never gets stuck: until all threads can be joined, some thread can step.
  pub run_progress :
      {r : Run}
      → ReachRun mutex_of bytes threads size r
      → ((t : Run) × RunStep mutex_of bytes threads size r t)
        ⊎ IsJoined mutex_of bytes threads size r
  run_progress {r} reach =
      elim (find_thread (λ i. r.system.pc i ≢ idle)
        (λ i. (r.system.pc i ≡ idle) × (r.next i < size))
        (λ i. (r.system.pc i ≡ idle) × (size ≤ r.next i)) threads (λ i lt. stand size r i)) [
          | inr all ↦ inr all
          | inl (i, lt, inr (quiet, more)) ↦ inl (_, next_call i lt quiet more)
          | inl (i, lt, inl busy) ↦
              let (t, step, same) =
                no_deadlock (ReachRun-Reach mutex_of bytes threads size reach) i lt busy in
              inl (_, inside t step same)
        ]
