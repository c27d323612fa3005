-- ===== src/Wut/Create/Slots.antt =====
-- The thread ids that wut_create of wut/src/wut.c gives out.
use ece344_operating_system.Common.{
  ℕ, zero, suc, ◌+◌, ◌*◌, ◌≤◌, ◌<◌, ◌≡◌, ◌≢◌, refl, ◌∙◌, true, false, none, some, [], ◌∷◌, ◌++◌,
  arith, leb, ltb, ◌/◌, ℕ_discrete, if◌then◌else◌, Bool-cases, inl, inr, Option-cases,
}
use ece344_operating_system.Common.Family.{update}
use ece344_operating_system.Common.Int.{pos}
use ece344_operating_system.Wut.State.{entry, State, ok, bind_outcome, returned}
use ece344_operating_system.Wut.Create.{
  is_reusable, find_slot, claim_slot, new_tcb, wut_create, enqueue_new,
}

-- Slots from `thread_num` on are NULL, and a slot points to an allocated TCB.
pub record IsSized (s : State) : Type 0 where
  pub room : 1 ≤ s.max_thread_num
  pub counted : s.thread_num ≤ s.max_thread_num
  pub unused : (i : ℕ) → s.thread_num ≤ i → s.array i ≡ none
  pub allocated : (i p : ℕ) → s.array i ≡ some p → p < s.tcbs

-- The loop stops at the first reusable slot, if one is in range.
find_slot-first :
    (rounds i j : ℕ) (s : State)
    → i ≤ j
    → j < i + rounds
    → is_reusable s j ≡ true
    → (f : ℕ) × (find_slot rounds i s ≡ some f)
      × (i ≤ f)
      × (f ≤ j)
      × (is_reusable s f ≡ true)
      × ((l : ℕ) → i ≤ l → l < f → is_reusable s l ≡ false)
unfolding find_slot
find_slot-first zero i j s lo hi free = absurd (omega arith)
find_slot-first (suc rounds) i j s lo hi free = elim (Bool-cases (is_reusable s i)) [
  | inl here ↦ (i, rw here, omega arith, lo, here, λ l a b. absurd (omega arith))
  | inr taken ↦
      let next : suc i ≤ j = ground arith in
      let (f, found, a, b, c, least) = find_slot-first rounds (suc i) j s next (omega arith) free in
      (
        f,
        rw taken found,
        omega arith,
        b,
        c,
        λ l p q. elim (ℕ_discrete i l) [
          | yes same ↦ rw (← same) taken
          | no other ↦ least l (omega arith) q
        ],
      )
]

-- What `wut_create` does, with the id `i` that it gives to the new thread.
pub record Creates (run : ℕ) (s : State) (i : ℕ) (t : State) : Type 0 where
  -- the least id whose slot is NULL or holds a thread that has ended and is not being joined
  pub reusable : is_reusable s i ≡ true
  pub least : (j : ℕ) → j < i → is_reusable s j ≡ false
  pub at_most : i ≤ s.thread_num
  -- the slot holds a new TCB of a running thread
  pub slot : t.array i ≡ some s.tcbs
  pub fields : t.tcb s.tcbs ≡ record (new_tcb i true (entry run)) { thread_in_q = some s.threads }
  -- the other slots and TCBs stay
  pub other_slots : (j : ℕ) → j ≢ i → t.array j ≡ s.array j
  pub other_tcbs : (p : ℕ) → p ≢ s.tcbs → t.tcb p ≡ s.tcb p
  -- the thread is the last of the ready queue
  pub queue : t.queue ≡ s.queue ++ (record { address = s.threads; thread_id = i }) ∷ []
  pub current : t.current ≡ s.current
  pub tcbs : t.tcbs ≡ s.tcbs + 1
  pub threads : t.threads ≡ s.threads + 1
  pub thread_num : t.thread_num ≡ s.thread_num + 1
  pub max_thread_num :
      t.max_thread_num
      ≡ (if leb s.max_thread_num s.thread_num then s.max_thread_num * 2 else s.max_thread_num)

module _ (run : ℕ) (s : State) (sized : IsSized s) where
  -- The state in which the loop looks for a slot.
  abbrev roomy : State
  roomy = record s {
    max_thread_num =
        if leb s.max_thread_num s.thread_num then s.max_thread_num * 2 else s.max_thread_num;
    array = λ i.
        if leb s.max_thread_num s.thread_num
        then (if ltb i (s.max_thread_num * 2 / 2) then s.array i else none)
        else s.array i;
    tcb = update s.tcb s.tcbs (new_tcb 0 true (entry run));
    tcbs = s.tcbs + 1;
  }

  roomy-array : (i : ℕ) → roomy.array i ≡ s.array i
  roomy-array i = ground (arith, sized.unused i)

  roomy-is_reusable : (i : ℕ) → is_reusable roomy i ≡ is_reusable s i
  unfolding is_reusable
  roomy-is_reusable i = elim (Option-cases (s.array i)) [
    | inl e ↦ ground (arith, roomy-array i, e)
    | inr (p, e) ↦ ground (arith, roomy-array i, e, sized.allocated i p e)
  ]

  wut_create-claim_slot :
      wut_create run s ≡ bind_outcome (claim_slot s.tcbs roomy) (enqueue_new s.tcbs)
  unfolding wut_create
  wut_create-claim_slot = elim (Bool-cases (leb s.max_thread_num s.thread_num)) [
    | inl e ↦ rw e
    | inr e ↦ rw e
  ]

  -- The state that it returns in, once the loop has stopped at slot `i`.
  abbrev created : ℕ → State
  created i =
      let tcb = update roomy.tcb s.tcbs (record (roomy.tcb s.tcbs) { id = i }) in
      record roomy {
        array = update roomy.array i (some s.tcbs);
        thread_num = s.thread_num + 1;
        tcb = update tcb s.tcbs (record (tcb s.tcbs) { thread_in_q = some s.threads });
        queue = s.queue ++ (record { address = s.threads; thread_id = i }) ∷ [];
        threads = s.threads + 1;
      }

  claim_slot-created :
      (i : ℕ)
      → find_slot roomy.max_thread_num 0 roomy ≡ some i
      → bind_outcome (claim_slot s.tcbs roomy) (enqueue_new s.tcbs)
        ≡ ok (returned (pos i)) (created i)
  unfolding claim_slot enqueue_new
  claim_slot-created i found = rw (found, claim_slot)

  thread_num-free : is_reusable roomy s.thread_num ≡ true
  unfolding is_reusable
  thread_num-free =
      rw (roomy-is_reusable s.thread_num, sized.unused s.thread_num (omega arith), is_reusable)

  thread_num-in_range : s.thread_num < 0 + roomy.max_thread_num
  thread_num-in_range = ground (arith, sized.room, sized.counted)

  -- `wut_create` succeeds: it makes the array large enough, and finds a slot.
  pub wut_create-Creates :
      (i : ℕ) × (t : State) × (wut_create run s ≡ ok (returned (pos i)) t) × Creates run s i t
  wut_create-Creates =
      let (i, found, _, le, free, least) =
        find_slot-first roomy.max_thread_num 0 s.thread_num roomy (omega arith) thread_num-in_range
          thread_num-free in
      (
        i,
        created i,
        wut_create-claim_slot ∙ claim_slot-created i found,
        record {
          reusable = rw (roomy-is_reusable i) at free;
          least = λ j lt. rw (roomy-is_reusable j) at (least j (omega arith) lt);
          at_most = le;
          slot = ground arith;
          fields = ground arith;
          other_slots = λ j ne. ground (arith, roomy-array j);
          other_tcbs = λ p ne. ground arith;
          queue = refl;
          current = refl;
          tcbs = refl;
          threads = refl;
          thread_num = refl;
          max_thread_num = refl;
        },
      )

-- What `wut_create` does keeps unused slots NULL and slots on allocated TCBs.
pub Creates-IsSized : {run i : ℕ} {s t : State} → IsSized s → Creates run s i t → IsSized t
Creates-IsSized {i = i} {s = s} {t = t} sized c = record {
  room = ground (arith, sized.room, sized.counted, c.max_thread_num);
  counted = ground (arith, sized.room, sized.counted, c.max_thread_num, c.thread_num);
  unused = λ j le.
      c.other_slots j (omega (arith, c.thread_num, c.at_most))
      ∙ sized.unused j (omega (arith, c.thread_num));
  allocated = λ j p e. elim (ℕ_discrete j i) [
    | yes same ↦ ground (arith, c.slot, c.tcbs, same, e)
    | no other ↦ ground (arith, c.other_slots j other, c.tcbs, sized.allocated j p, e)
  ];
}
