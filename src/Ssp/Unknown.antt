-- ===== src/Ssp/Unknown.antt =====
-- record_unknown_processes and ssp_print of ssp/src/ssp.c.
pub mod Recorded
use ece344_operating_system.Common.{
  ℕ, zero, suc, ◌+◌, Bool, true, false, Option, none, some, List, [], ◌∷◌, ◌++◌, length, get_elem?,
  ltb, ◌==◌, if◌then◌else◌,
}
use ece344_operating_system.Common.Int.{ℤ, pos}
use ece344_operating_system.Ssp.{
  SubProcess, State, wifexited, wexitstatus, wifsignaled, wtermsig, grown, ssp_get_status,
}

-- A child that waitpid reports, with its status.
pub record Report : Type 0 where
  pub pid : ℕ
  pub status : ℕ

-- The search for the pid.
unfoldable pub is_known : (pid : ℕ) → List SubProcess → Bool
is_known pid [] = false
is_known pid (p ∷ ps) = if p.pid == pid then true else is_known pid ps

abbrev pub unknown : List ℕ
unknown = b'<' ∷ b'u' ∷ b'n' ∷ b'k' ∷ b'n' ∷ b'o' ∷ b'w' ∷ b'n' ∷ b'>' ∷ []

-- WIFSIGNALED is asked of what malloc left in the new field, and not of the report.
unfoldable pub unknown_status : (left : ℤ) (status : ℕ) → ℤ
unfolding wifexited wexitstatus wifsignaled wtermsig
unknown_status left status =
    if wifexited (pos status)
    then wexitstatus status
    else (if wifsignaled left then pos (wtermsig (pos status) + 128) else left)

abbrev pub unknown_proc : (left : ℤ) → Report → SubProcess
unknown_proc left r = record { pid = r.pid; name = unknown; status = unknown_status left r.status }

-- One round of the loop. `heap` is what malloc leaves in the status of each new entry; `none` is a
-- write behind the end of the array.
unfoldable pub record_report : (heap : ℕ → ℤ) → Report → State → Option State
unfolding is_known unknown_status grown
record_report heap r s =
    let num = length s.unknown_processes in
    if is_known r.pid s.processes
    then some s
    else (if ltb num s.arr_size_unknown
        then some (record s {
          unknown_processes = s.unknown_processes ++ unknown_proc (heap num) r ∷ [];
          arr_size_unknown = grown (suc num) s.arr_size_unknown;
        })
        else none)

-- The loop, on what waitpid reports one after the other.
unfoldable pub record_unknown_processes : (heap : ℕ → ℤ) → List Report → State → Option State
unfolding record_report
record_unknown_processes heap [] s = some s
record_unknown_processes heap (r ∷ rs) s = elim (record_report heap r s) [
  | none ↦ none
  | some t ↦ record_unknown_processes heap rs t
]

-- A line that is printed, with the width of the name.
pub record Row : Type 0 where
  pub pid : ℕ
  pub width : ℕ
  pub name : List ℕ
  pub status : ℤ

abbrev pub widest : (space : ℕ) → List SubProcess → ℕ
widest space [] = space
widest space (p ∷ ps) = widest (if ltb space (length p.name) then length p.name else space) ps

abbrev pub space_of : List SubProcess → ℕ
space_of [] = 9
space_of (p ∷ ps) = widest 3 (p ∷ ps)

-- The loop over the processes, each asked for its status.
unfoldable pub print_known : (poll : ℕ → Option ℕ) → (space rounds i : ℕ) → State → List Row × State
unfolding ssp_get_status
print_known poll space zero i s = ([], s)
print_known poll space (suc rounds) i s =
    let (status, t) = ssp_get_status poll (pos i) s in
    let (rows, u) = print_known poll space rounds (suc i) t in
    (
      elim (get_elem? s.processes i) [
        | none ↦ rows
        | some p ↦ record { pid = p.pid; width = space; name = p.name; status = status } ∷ rows
      ],
      u,
    )

abbrev pub unknown_rows : List SubProcess → List Row
unknown_rows [] = []
unknown_rows (p ∷ ps) =
    record { pid = p.pid; width = 9; name = p.name; status = p.status } ∷ unknown_rows ps

-- The lines below the heading.
unfoldable pub ssp_print :
    (poll : ℕ → Option ℕ) (heap : ℕ → ℤ) (reports : List Report) → State → Option (List Row × State)
unfolding print_known record_unknown_processes
ssp_print poll heap reports s =
    let (rows, t) = print_known poll (space_of s.processes) (length s.processes) 0 s in
    elim (record_unknown_processes heap reports t) [
      | none ↦ none
      | some u ↦ some (rows ++ unknown_rows u.unknown_processes, u)
    ]
