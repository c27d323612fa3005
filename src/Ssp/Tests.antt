-- ===== src/Ssp/Tests.antt =====
-- The calls of ssp/src/ssp.c at concrete processes.
use ece344_operating_system.Common.{
  ℕ, arith, get_elem?, ◌&&◌, if◌then◌else◌, ◌%◌, ◌<◌, ◌≡◌, refl, false, none, some, List, [], ◌∷◌,
}
use ece344_operating_system.Common.Int.{ℤ, pos, negsuc}
use ece344_operating_system.Ssp.{
  minus_one, is_running, SubProcess, State, ssp_init, polled, waited, wait_all, ssp_wait, wifexited,
  wexitstatus, wifsignaled, wtermsig,
}
use ece344_operating_system.Ssp.Program.{
  Call, create, get_status, wait, send_signal, print, perform_all,
}
use ece344_operating_system.Ssp.Status.{status_at, polled_lem, ssp_wait-is_running}
use ece344_operating_system.Ssp.Signals.{ssp_send_signal}
use ece344_operating_system.Ssp.Signals.Sent.{sent, ssp_send_signal_lem}
use ece344_operating_system.Ssp.Unknown.{
  unknown, unknown_status, is_known, record_unknown_processes,
}
use ece344_operating_system.Ssp.Unknown.Recorded.{RecordsAll, record_unknown_processes_lem}
use ece344_operating_system.Ssp.Calls.{status_is_kept}

-- Process 700 is created, polled without an answer, and waited for: it ended with 3.
abbrev one_process : List Call
one_process = create (some 700) [] ∷ get_status (λ _. none) (pos 0) ∷ wait (λ _. some 768) ∷ []

abbrev later_calls : List Call
later_calls =
    create none []
    ∷ get_status (λ _. some 9) (pos 0)
    ∷ send_signal (λ _. none) 0 15
    ∷ print (λ _. none) (λ _. pos 0) (record { pid = 900; status = 256 } ∷ [])
    ∷ []

status_is_kept_example :
    (s : State) × (t : State) × (perform_all one_process ssp_init ≡ some s)
    × (perform_all later_calls s ≡ some t)
    × ((i : ℕ) (v : ℤ)
        → status_at s.processes i ≡ some v
        → is_running v ≡ false
        → status_at t.processes i ≡ some v)
status_is_kept_example = status_is_kept one_process later_calls

polled_lem_example :
    (15 % 128 ≡ 0 → polled (some 15) minus_one ≡ waited (some 15) minus_one)
    × (0 < 15 % 128 → 15 % 128 < 127 → polled (some 15) minus_one ≡ pos 255)
polled_lem_example = polled_lem 15

abbrev two_processes : State
two_processes = record ssp_init {
  processes =
      (record { pid = 700; name = []; status = minus_one })
      ∷ (record { pid = 701; name = []; status = pos 4 })
      ∷ [];
}

two_waited : status_at (ssp_wait (λ _. some 15) two_processes).processes 0 ≡ some (pos 143)
unfolding ssp_wait wait_all waited wifexited wexitstatus wifsignaled wtermsig ssp_init
two_waited = refl

ssp_wait-is_running_example : is_running (pos 143) ≡ false
ssp_wait-is_running_example =
    ssp_wait-is_running (λ _. some 15) two_processes (λ pid. (15, refl)) 0 (pos 143) two_waited

-- Process 700 runs and gets the signal, 701 has ended and does not.
ssp_send_signal_lem_example :
    ((i : ℕ) (p : SubProcess)
      → get_elem? two_processes.processes i ≡ some p
      → sent (ssp_send_signal (λ _. none) (pos i) 15 two_processes)
        ≡ some (
            if is_running p.status && is_running (polled none p.status)
            then some (record { pid = p.pid; signum = 15 })
            else none))
    × ((i : ℕ)
        → get_elem? two_processes.processes i ≡ none
        → ssp_send_signal (λ _. none) (pos i) 15 two_processes ≡ some (none, two_processes))
    × ((i : ℕ) → ssp_send_signal (λ _. none) (negsuc i) 15 two_processes ≡ none)
ssp_send_signal_lem_example = ssp_send_signal_lem (λ _. none) 15 two_processes

-- Child 900 is unknown and exited with 1, and the end of 701 is lost.
record_unknown_processes_lem_example :
    RecordsAll
      (record_unknown_processes
        (λ _. pos 0)
        (record { pid = 900; status = 256 } ∷ record { pid = 701; status = 0 } ∷ [])
        two_processes)
      two_processes
      (record { pid = 900; name = unknown; status = pos 1 } ∷ [])
unfolding ssp_init is_known unknown_status wifexited wexitstatus
record_unknown_processes_lem_example =
    record_unknown_processes_lem (λ _. pos 0)
      (record { pid = 900; status = 256 } ∷ record { pid = 701; status = 0 } ∷ []) two_processes
      (omega arith)
