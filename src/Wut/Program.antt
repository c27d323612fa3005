-- ===== src/Wut/Program.antt =====
-- A program over wut/src/wut.c: the thread that runs calls one operation after the other, in any order
-- and with any arguments. A thread whose function returns runs `wut_exit (0)`, in EXIT_CONTEXT.
pub mod Facts
use ece344_operating_system.Common.{ℕ, ◌≡◌}
use ece344_operating_system.Common.Int.{ℤ}
use ece344_operating_system.Wut.State.{State, ok, M, Event}
use ece344_operating_system.Wut.Create.{wut_init, wut_create}
use ece344_operating_system.Wut.Schedule.{wut_yield, wut_join, wut_exit, exit_context}
use ece344_operating_system.Wut.Cancel.{wut_cancel}

pub data Call : Type 0 where
  create : (run : ℕ) → Call
  yield : Call
  join cancel exit : ℤ → Call
  -- the function of the thread returns
  finish : Call

unfoldable pub perform : Call → M Event
perform (create run) = wut_create run
perform yield = wut_yield
perform (join id) = wut_join id
perform (cancel id) = wut_cancel id
perform (exit status) = wut_exit status
perform finish = exit_context

-- The states that calls lead to from `s`.
pub data Leads (s : State) : State → Type 0 where
  here : Leads s s
  next : {t u : State} (c : Call) (e : Event) → Leads s t → perform c t ≡ ok e u → Leads s u

abbrev pub Reachable : State → Type 0
Reachable = Leads wut_init
