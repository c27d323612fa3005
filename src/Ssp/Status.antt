-- ===== src/Ssp/Status.antt =====
-- The statuses of ssp/src/ssp.c: what is reported, and what stays.
use ece344_operating_system.Common.{
  ℕ, zero, suc, ◌+◌, ◌/◌, ◌%◌, ◌<◌, ◌≡◌, inl, inr, false, Option, none, some, List, [], ◌∷◌,
  get_elem?, arith, Bool-cases,
}
use ece344_operating_system.Common.Int.{ℤ, pos}
use ece344_operating_system.Ssp.{
  minus_one, is_running, SubProcess, State, wifexited, wexitstatus, wifsignaled, wtermsig, polled,
  waited, wait_all, ssp_wait,
}

-- The status that a process has at an index.
abbrev pub status_at : List SubProcess → ℕ → Option ℤ
status_at ps i = elim (get_elem? ps i) [ none ↦ none | some p ↦ some p.status ]

pub wait_all-ended :
    (wait : ℕ → Option ℕ) (ps : List SubProcess) (i : ℕ) (v : ℤ)
    → status_at ps i ≡ some v
    → is_running v ≡ false
    → status_at (wait_all wait ps) i ≡ some v
unfolding wait_all
wait_all-ended wait [] i v h ended = h
wait_all-ended wait (p ∷ ps) zero v h ended = ground (arith, h, ended)
wait_all-ended wait (p ∷ ps) (suc i) v h ended = wait_all-ended wait ps i v h ended

-- What ssp_wait makes of the report of waitpid on a process that ran: the exit status, or 128 and the
-- number of the signal.
pub waited_lem :
    (status : ℕ) (old : ℤ)
    → (status % 128 ≡ 0 → waited (some status) old ≡ pos (status / 256 % 256))
      × (0 < status % 128
          → status % 128 < 127
          → waited (some status) old ≡ pos (status % 128 + 128))
unfolding waited wifexited wexitstatus wifsignaled wtermsig
waited_lem status old = (λ e. ground (arith, e), λ p q. ground (arith, p, q))

-- ssp_get_status agrees with it on an exit, and makes 255 of every signal.
pub polled_lem :
    (status : ℕ)
    → (status % 128 ≡ 0 → polled (some status) minus_one ≡ waited (some status) minus_one)
      × (0 < status % 128 → status % 128 < 127 → polled (some status) minus_one ≡ pos 255)
unfolding polled waited wifexited wexitstatus wifsignaled wtermsig
polled_lem status = (λ e. ground (arith, e), λ p q. ground (arith, p, q))

waited-is_running : (status : ℕ) (old : ℤ) → is_running (waited (some status) old) ≡ false
unfolding waited wifexited wexitstatus wifsignaled wtermsig
waited-is_running status old = ground arith

wait_all-is_running :
    (wait : ℕ → Option ℕ) (ps : List SubProcess)
    → ((pid : ℕ) → (status : ℕ) × (wait pid ≡ some status))
    → (i : ℕ) (v : ℤ) → status_at (wait_all wait ps) i ≡ some v
    → is_running v ≡ false
unfolding wait_all
wait_all-is_running wait [] ends i v h = absurd (ground (arith, h))
wait_all-is_running wait (p ∷ ps) ends (suc i) v h = wait_all-is_running wait ps ends i v h
wait_all-is_running wait (p ∷ ps) ends zero v h = elim (Bool-cases (is_running p.status)) [
  | inl running ↦
      let (status, e) = ends p.pid in
      let now = waited-is_running status p.status in ground (arith, h, running, e, now)
  | inr ended ↦ ground (arith, h, ended)
]

-- After ssp_wait, in which waitpid reports every process that it waits for, every process has a status.
pub ssp_wait-is_running :
    (wait : ℕ → Option ℕ) (s : State)
    → ((pid : ℕ) → (status : ℕ) × (wait pid ≡ some status))
    → (i : ℕ) (v : ℤ) → status_at (ssp_wait wait s).processes i ≡ some v
    → is_running v ≡ false
unfolding ssp_wait
ssp_wait-is_running wait s ends = wait_all-is_running wait s.processes ends
