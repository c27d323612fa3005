-- ===== src/Pht/Tester/Threads.antt =====
-- The threads of pht/src/pht-tester.c, each in run_v1 or run_v2: a loop of calls of add_entry. The
-- placement of the mutexes, in which the two versions differ, is a parameter.
pub mod Joined
use ece344_operating_system.Common.{ℕ, suc, ◌≤◌, ◌<◌, ◌≡◌, ◌∷◌}
use ece344_operating_system.Common.Family.{update}
use ece344_operating_system.Pht.Hash.{CString}
use ece344_operating_system.Pht.Locked.{idle, locking, System, init, Step}
use ece344_operating_system.Pht.Tester.{get_global_index, get_string}

-- The table with the threads in it, and the loop variable `j` of each.
pub record Run : Type 0 where
  pub system : System
  pub next : ℕ → ℕ

abbrev pub key_at : (bytes : ℕ → ℕ) → (size thread j : ℕ) → CString
key_at bytes size thread j = get_string bytes (get_global_index size thread j)

module _ (mutex_of : ℕ → ℕ) (bytes : ℕ → ℕ) (threads size : ℕ) where
  -- A thread that is in no call makes the next of its loop, or some thread steps inside of its call.
  pub data RunStep (r : Run) : Run → Type 0 where
    next_call :
        (i : ℕ)
        → i < threads
        → r.system.pc i ≡ idle
        → r.next i < size
        → RunStep r (record {
          system = record r.system {
            pc =
                update r.system.pc i
                  (locking (key_at bytes size i (r.next i)) (get_global_index size i (r.next i)));
            calls =
                (key_at bytes size i (r.next i), get_global_index size i (r.next i))
                ∷ r.system.calls;
          };
          next = update r.next i (suc (r.next i));
        })
    inside :
        (t : System)
        → Step mutex_of threads r.system t
        → t.calls ≡ r.system.calls
        → RunStep r (record r { system = t })

  -- The threads were created and have made any steps.
  pub data ReachRun : Run → Type 0 where
    created : ReachRun (record { system = init; next = λ _. 0 })
    stepped : {r t : Run} → ReachRun r → RunStep r t → ReachRun t

  -- All threads were joined: each is in no call and has left its loop.
  abbrev pub IsJoined : Run → Type 0
  IsJoined r = (i : ℕ) → i < threads → (r.system.pc i ≡ idle) × (size ≤ r.next i)
