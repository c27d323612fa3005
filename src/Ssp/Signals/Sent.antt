-- ===== src/Ssp/Signals/Sent.antt =====
-- Which signals ssp_send_signal of ssp/src/ssp.c sends.
use mathlib.Core.Option
use ece344_operating_system.Common.{
  ℕ, ◌≡◌, refl, ◌&&◌, Option, none, some, get_elem?, if◌then◌else◌, Bool-cases, inl, inr,
}
use ece344_operating_system.Common.Int.{pos, negsuc}
use ece344_operating_system.Ssp.{is_running, SubProcess, State, polled, ssp_get_status}
use ece344_operating_system.Ssp.Signals.{Kill, ssp_send_signal}

abbrev pub sent : Option (Option Kill × State) → Option (Option Kill)
sent o = Option.map (λ (r : Option Kill × State). r.0) o

-- What ssp_get_status gives for a process.
asked :
    (poll : ℕ → Option ℕ) (s : State) (i : ℕ) (p : SubProcess)
    → get_elem? s.processes i ≡ some p
    → is_running (ssp_get_status poll (pos i) s).0
      ≡ (is_running p.status && is_running (polled (poll p.pid) p.status))
unfolding ssp_get_status
asked poll s i p e = elim (Bool-cases (is_running p.status)) [
  | inl running ↦ rw (ssp_get_status, e, running) refl
  | inr ended ↦ rw (ssp_get_status, e, ended) ended
]

-- A process gets a signal just if it had no status and waitpid reports no end now; an id behind the
-- processes does nothing; and every negative id is read before the array.
pub ssp_send_signal_lem :
    (poll : ℕ → Option ℕ) (signum : ℕ) (s : State)
    → ((i : ℕ) (p : SubProcess)
        → get_elem? s.processes i ≡ some p
        → sent (ssp_send_signal poll (pos i) signum s)
          ≡ some (
              if is_running p.status && is_running (polled (poll p.pid) p.status)
              then some (record { pid = p.pid; signum = signum })
              else none))
      × ((i : ℕ)
          → get_elem? s.processes i ≡ none
          → ssp_send_signal poll (pos i) signum s ≡ some (none, s))
      × ((i : ℕ) → ssp_send_signal poll (negsuc i) signum s ≡ none)
unfolding ssp_send_signal
ssp_send_signal_lem poll signum s = (
  λ i p e. rw (ssp_send_signal, e, asked poll s i p e) refl,
  λ i e. rw (ssp_send_signal, e) refl,
  λ i. refl,
)
