-- ===== src/Wut/State.antt =====
-- The global state of wut/src/wut.c, and runs of its code. A pointer to a THREAD or a TCB is its
-- number in the order of allocation; allocation is taken to succeed.
use ece344_operating_system.Common.{ℕ, zero, suc, Bool, true, false, Option, List}
use ece344_operating_system.Common.Int.{ℤ, pos, negsuc}

-- struct THREAD, an entry of the ready queue.
pub record Thread : Type 0 where
  pub address : ℕ
  pub thread_id : ℕ

-- What a saved context continues with.
pub data Context : Type 0 where
  -- `getcontext` of thread 0 in `wut_init`
  initial : Context
  -- the function given to `wut_create`
  entry : (run : ℕ) → Context
  -- behind the `swapcontext` of `wut_yield`
  yielding : Context
  -- behind the `swapcontext` of `wut_join`, with its local `join_thread`
  joining : (join_thread : ℕ) → Context

-- struct TCB. The flags are 0 or 1; a pointer that may be NULL is an option. `stack` tells whether the
-- thread has a stack of its own that is mapped.
pub record Tcb : Type 0 where
  pub id : ℕ
  pub status : ℤ
  pub join : Bool
  pub join_from : ℤ
  pub join_to : ℤ
  pub block : Bool
  pub enable : Bool
  pub thread_in_q : Option ℕ
  pub stack : Bool
  pub ucontext : Option Context

-- The global variables, with the heap. `array` is TCB_ARRAY, which has `max_thread_num` slots;
-- `tcbs` and `threads` count the allocations.
pub record State : Type 0 where
  pub array : ℕ → Option ℕ
  pub max_thread_num : ℕ
  pub thread_num : ℕ
  pub current : ℕ
  pub tcb : ℕ → Tcb
  pub tcbs : ℕ
  pub queue : List Thread
  pub threads : ℕ

-- A run of the code: a value and the new state, a bad access to memory, or `exit (0)`.
pub data Outcome (A : Type 0) : Type 0 where
  ok : A → State → Outcome A
  fault : Outcome A
  exited : Outcome A

abbrev pub M : Type 0 → Type 0
M A = State → Outcome A

abbrev pub pure : {A : Type 0} → A → M A
pure a s = ok a s

abbrev pub bind_outcome : {A B : Type 0} → Outcome A → (A → M B) → Outcome B
bind_outcome (ok a s) f = f a s
bind_outcome fault f = fault
bind_outcome exited f = exited

infixl 5 ◌>>=◌ ◌>>◌
abbrev pub ◌>>=◌ : {A B : Type 0} → M A → (A → M B) → M B
◌>>=◌ m f s = bind_outcome (m s) f

abbrev pub ◌>>◌ : {B : Type 0} → M (Unit {0}) → M B → M B
m >> k = m >>= λ _. k

-- What the thread that runs after an operation sees: the operation that it waits in returns, or its
-- function is entered.
pub data Event : Type 0 where
  returned : ℤ → Event
  entered : (run : ℕ) → Event

abbrev pub minus_one : ℤ
minus_one = negsuc 0

abbrev pub is_minus_one : ℤ → Bool
is_minus_one (pos n) = false
is_minus_one (negsuc zero) = true
is_minus_one (negsuc (suc n)) = false
