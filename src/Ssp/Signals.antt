-- ===== src/Ssp/Signals.antt =====
-- ssp_send_signal of ssp/src/ssp.c.
pub mod Sent
use ece344_operating_system.Common.{
  ℕ, Bool, true, false, Option, none, some, get_elem?, if◌then◌else◌,
}
use ece344_operating_system.Common.Int.{ℤ, pos, negsuc}
use ece344_operating_system.Ssp.{is_running, SubProcess, State, ssp_get_status}

-- What is given to kill.
pub record Kill : Type 0 where
  pub pid : ℕ
  pub signum : ℕ

-- The test of a negative ssp_id is on process_num, so ssp_get_status gives -1 for it and
-- processes[ssp_id] is read before the array: that is `none`.
unfoldable pub ssp_send_signal :
    (poll : ℕ → Option ℕ) (ssp_id : ℤ) (signum : ℕ) → State → Option (Option Kill × State)
unfolding ssp_get_status
ssp_send_signal poll (negsuc i) signum s = none
ssp_send_signal poll (pos i) signum s = elim (get_elem? s.processes i) [
  | none ↦ some (none, s)
  | some p ↦
      let (status, t) = ssp_get_status poll (pos i) s in
      some (if is_running status then some (record { pid = p.pid; signum = signum }) else none, t)
]
