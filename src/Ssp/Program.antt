-- ===== src/Ssp/Program.antt =====
-- Sequences of calls of ssp/src/ssp.c.
use mathlib.Core.Option
use ece344_operating_system.Common.{ℕ, Option, none, some, List, [], ◌∷◌}
use ece344_operating_system.Common.Int.{ℤ, pos}
use ece344_operating_system.Ssp.{State, ssp_create, ssp_get_status, ssp_wait}
use ece344_operating_system.Ssp.Signals.{Kill, ssp_send_signal}
use ece344_operating_system.Ssp.Unknown.{Report, Row, ssp_print}

-- A call, with what the operating system answers. A signal is sent by an id that is not negative.
pub data Call : Type 0 where
  create : (fork : Option ℕ) (name : List ℕ) → Call
  get_status : (poll : ℕ → Option ℕ) → ℤ → Call
  wait : (reported : ℕ → Option ℕ) → Call
  send_signal : (poll : ℕ → Option ℕ) (ssp_id signum : ℕ) → Call
  print : (poll : ℕ → Option ℕ) (heap : ℕ → ℤ) (reports : List Report) → Call

unfoldable pub perform : Call → State → Option State
unfolding ssp_create ssp_get_status ssp_wait ssp_send_signal ssp_print
perform (create fork name) s = Option.map (λ (r : ℤ × State). r.1) (ssp_create fork name s)
perform (get_status poll i) s = some (ssp_get_status poll i s).1
perform (wait reported) s = some (ssp_wait reported s)
perform (send_signal poll ssp_id signum) s =
    Option.map (λ (r : Option Kill × State). r.1) (ssp_send_signal poll (pos ssp_id) signum s)
perform (print poll heap reports) s =
    Option.map (λ (r : List Row × State). r.1) (ssp_print poll heap reports s)

unfoldable pub perform_all : List Call → State → Option State
unfolding perform
perform_all [] s = some s
perform_all (c ∷ cs) s = elim (perform c s) [ none ↦ none | some t ↦ perform_all cs t ]
