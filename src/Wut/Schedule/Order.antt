-- ===== src/Wut/Schedule/Order.antt =====
-- The order in which the threads of wut/src/wut.c are to run, and the states in which `wut_yield` can
-- be called.
use ece344_operating_system.Common.{
  ℕ, ◌<◌, ◌≡◌, refl, Bool, true, false, ◌||◌, Option, none, some, List, [], ◌∷◌, ◌++◌, map, ◌==◌,
  arith,
}
use ece344_operating_system.Wut.State.{
  Thread, Context, initial, entry, yielding, joining, State, ok, Event, is_minus_one,
}
use ece344_operating_system.Wut.Memory.{has_address, resume, modify, get_tcb}

abbrev pub All {ℓ κ} : {A : Type ℓ} → (A → Type κ) → List A → Type κ
All P [] = Unit
All P (x ∷ xs) = P x × All P xs

abbrev pub has_id : ℕ → List Thread → Bool
has_id i [] = false
has_id i (n ∷ q) = (n.thread_id == i) || has_id i q

-- No thread and no entry stands twice in the queue.
abbrev pub IsDistinct : List Thread → Type 0
IsDistinct [] = Unit
IsDistinct (n ∷ q) =
    (has_id n.thread_id q ≡ false) × (has_address n.address q ≡ false) × IsDistinct q

-- A saved context that can be continued.
abbrev pub is_resumable : Option Context → Bool
is_resumable none = false
is_resumable (some initial) = false
is_resumable (some (entry run)) = true
is_resumable (some yielding) = true
is_resumable (some (joining p)) = true

abbrev pub is_saved : Option Context → Bool
is_saved none = false
is_saved (some c) = true

-- The thread of a queue entry has a slot and a context, points to the entry, and has not ended.
abbrev pub IsQueued : State → Thread → Type 0
IsQueued s n =
    (p : ℕ) × (s.array n.thread_id ≡ some p)
    × (is_resumable (s.tcb p).ucontext ≡ true)
    × ((s.tcb p).thread_in_q ≡ some n.address)
    × (n.address < s.threads)
    × (is_minus_one (s.tcb p).status ≡ true)

pub record IsReady (s : State) : Type 0 where
  -- a slot in use is in range, and its TCB has its id
  pub slots : (i p : ℕ) → s.array i ≡ some p → (i < s.max_thread_num) × ((s.tcb p).id ≡ i)
  -- the running thread has a slot and a place for its context, has not ended, and is not in the queue
  pub here :
      (p : ℕ) × (s.array s.current ≡ some p)
      × (is_saved (s.tcb p).ucontext ≡ true)
      × (is_minus_one (s.tcb p).status ≡ true)
  pub apart : has_id s.current s.queue ≡ false
  pub entry :
      (p a : ℕ)
      → s.array s.current ≡ some p
      → (s.tcb p).thread_in_q ≡ some a
      → (has_address a s.queue ≡ false) × (a < s.threads)
  pub queued : All (IsQueued s) s.queue
  pub distinct : IsDistinct s.queue

-- The running thread, and behind it those that are ready, in order.
abbrev pub order : State → List ℕ
order s = s.current ∷ map (λ (n : Thread). n.thread_id) s.queue

-- What `resume` leaves.
pub record Like (s t : State) : Type 0 where
  pub array : t.array ≡ s.array
  pub max_thread_num : t.max_thread_num ≡ s.max_thread_num
  pub current : t.current ≡ s.current
  pub queue : t.queue ≡ s.queue
  pub threads : t.threads ≡ s.threads
  pub tcb :
      (p : ℕ)
      → ((t.tcb p).id ≡ (s.tcb p).id)
        × ((t.tcb p).ucontext ≡ (s.tcb p).ucontext)
        × ((t.tcb p).thread_in_q ≡ (s.tcb p).thread_in_q)
        × ((t.tcb p).status ≡ (s.tcb p).status)

Like-refl : (s : State) → Like s s
Like-refl s = record {
  array = refl;
  max_thread_num = refl;
  current = refl;
  queue = refl;
  threads = refl;
  tcb = λ p. (refl, refl, refl, refl);
}

pub resume-Like :
    (c : Option Context) (s : State)
    → is_resumable c ≡ true
    → (e : Event) × (t : State) × (resume c s ≡ ok e t) × Like s t
unfolding resume modify get_tcb
resume-Like none s h = absurd (cc)
resume-Like (some initial) s h = absurd (cc)
resume-Like (some (entry run)) s h = (_, s, refl, Like-refl s)
resume-Like (some yielding) s h = (_, s, refl, Like-refl s)
resume-Like (some (joining p)) s h = (
  _,
  _,
  refl,
  record {
    array = refl;
    max_thread_num = refl;
    current = refl;
    queue = refl;
    threads = refl;
    tcb = λ q. ground arith;
  },
)

-- A queue stays queued under a change of the state that keeps what it says of each entry.
pub All-IsQueued :
    (s t : State) (q : List Thread)
    → ((n : Thread) → IsQueued s n → has_id n.thread_id q ≡ true → IsQueued t n)
    → All (IsQueued s) q
    → All (IsQueued t) q
All-IsQueued s t [] keep h = tt
All-IsQueued s t (n ∷ q) keep h =
    (keep n h.0 (ground arith), All-IsQueued s t q (λ m k e. keep m k (ground (arith, e))) h.1)

pub Like-IsReady : {s t : State} → Like s t → IsReady s → IsReady t
Like-IsReady {s} {t} l r = record {
  slots = λ i p e. ground (arith, l.array, l.max_thread_num, l.tcb p, r.slots i p);
  here =
      let (p, a, b, c) = r.here in
      (p, ground (arith, l.array, l.current), ground (arith, l.tcb p), ground (arith, l.tcb p));
  apart = rw (l.current, l.queue) r.apart;
  entry = λ p a e f. ground (arith, l.array, l.current, l.queue, l.threads, l.tcb p, r.entry p a);
  queued = rw l.queue (
      All-IsQueued s t s.queue
        (λ n (p, a, b, c, d, e) _. (
          p,
          ground (arith, l.array),
          ground (arith, l.tcb p),
          ground (arith, l.tcb p),
          ground (arith, l.threads),
          ground (arith, l.tcb p),
        ))
        r.queued);
  distinct = rw l.queue r.distinct;
}

pub has_id-append : (i : ℕ) (a b : List Thread) → has_id i (a ++ b) ≡ (has_id i a || has_id i b)
has_id-append i [] b = refl
has_id-append i (n ∷ a) b = ground (arith, has_id-append i a b)

pub has_address-append :
    (i : ℕ) (a b : List Thread) → has_address i (a ++ b) ≡ (has_address i a || has_address i b)
has_address-append i [] b = refl
has_address-append i (n ∷ a) b = ground (arith, has_address-append i a b)

pub IsDistinct-append_one :
    (q : List Thread) (n : Thread)
    → has_id n.thread_id q ≡ false
    → has_address n.address q ≡ false
    → IsDistinct q
    → IsDistinct (q ++ n ∷ [])
IsDistinct-append_one [] n a b d = (refl, refl, tt)
IsDistinct-append_one (m ∷ q) n a b d = (
  ground (arith, has_id-append m.thread_id q (n ∷ [])),
  ground (arith, has_address-append m.address q (n ∷ [])),
  IsDistinct-append_one q n (ground arith) (ground arith) d.2,
)

-- An address that is not allocated yet is not in the queue.
pub has_address-fresh :
    (s : State) (q : List Thread) → All (IsQueued s) q → has_address s.threads q ≡ false
has_address-fresh s [] h = refl
has_address-fresh s (n ∷ q) h =
    let (p, _, _, _, old, _) = h.0 in ground (arith, has_address-fresh s q h.1, old)

pub All-append_one {ℓ κ} :
    {A : Type ℓ} (P : A → Type κ) (xs : List A) (x : A) → All P xs → P x → All P (xs ++ x ∷ [])
All-append_one P [] x h k = (k, tt)
All-append_one P (y ∷ xs) x h k = (h.0, All-append_one P xs x h.1 k)
