-- ===== src/Ssp.antt =====
-- ssp/src/ssp.c: the array of child processes. What the operating system answers is given as arguments:
-- the result of fork, and of each waitpid the status of a process that it reports, if any.
pub mod Status
pub mod Signals
pub mod Unknown
pub mod Program
pub mod Calls
mod Tests
use ece344_operating_system.Common.{
  ℕ, zero, suc, ◌+◌, ◌-◌, ◌*◌, ◌/◌, ◌%◌, Bool, true, false, not, ◌&&◌, ◌||◌, Option, none, some,
  List, [], ◌∷◌, ◌++◌, length, get_elem?, set, ltb, leb, ◌==◌, if◌then◌else◌,
}
use ece344_operating_system.Common.Int.{ℤ, pos, negsuc}

abbrev pub minus_one : ℤ
minus_one = negsuc 0

abbrev pub is_running : ℤ → Bool
is_running (pos n) = false
is_running (negsuc zero) = true
is_running (negsuc (suc n)) = false

-- sub_process
pub record SubProcess : Type 0 where
  pub pid : ℕ
  pub name : List ℕ
  pub status : ℤ

-- `processes` and `unknown_processes` are the entries that are in use, `process_num` and
-- `unknown_processes_num` of them.
pub record State : Type 0 where
  pub processes : List SubProcess
  pub unknown_processes : List SubProcess
  pub arr_size_proc : ℕ
  pub arr_size_unknown : ℕ

unfoldable pub ssp_init : State
ssp_init = record {
  processes = [];
  unknown_processes = [];
  arr_size_proc = 128;
  arr_size_unknown = 128;
}

-- The low seven bits of an int.
abbrev pub low_bits : ℤ → ℕ
low_bits (pos n) = n % 128
low_bits (negsuc n) = 127 - n % 128

-- The macros on the status of waitpid.
unfoldable pub wifexited : ℤ → Bool
wifexited status = low_bits status == 0

unfoldable pub wexitstatus : ℕ → ℤ
wexitstatus status = pos (status / 256 % 256)

unfoldable pub wifsignaled : ℤ → Bool
wifsignaled status = not (low_bits status == 0) && not (low_bits status == 127)

unfoldable pub wtermsig : ℤ → ℕ
wtermsig status = low_bits status

-- The new size of an array; the entries stay.
unfoldable pub size_increase : ℕ → ℕ
size_increase size = size * 2

-- The size after an entry was added: a full array is enlarged.
unfoldable pub grown : (num size : ℕ) → ℕ
unfolding size_increase
grown num size = if leb size num then size_increase size else size

-- `none` is a write behind the end of the array. The value is what ssp_create returns.
unfoldable pub ssp_create : (fork : Option ℕ) (name : List ℕ) → State → Option (ℤ × State)
unfolding grown
ssp_create none name s = some (minus_one, s)
ssp_create (some pid) name s =
    let proc : SubProcess = record { pid = pid; name = name; status = minus_one } in
    let process_num = length s.processes in
    if ltb process_num s.arr_size_proc
    then some (
      pos process_num,
      record s {
        processes = s.processes ++ proc ∷ [];
        arr_size_proc = grown (suc process_num) s.arr_size_proc;
      },
    )
    else none

-- The status that ssp_get_status keeps for a running process, given what waitpid reported.
unfoldable pub polled : (reported : Option ℕ) (old : ℤ) → ℤ
unfolding wifexited wexitstatus wifsignaled wtermsig
polled none old = old
polled (some status) old =
    if wifexited (pos status)
    then wexitstatus status
    else (if wifsignaled (pos status) then pos (wtermsig old + 128) else old)

abbrev pub with_status : SubProcess → ℤ → SubProcess
with_status p status = record p { status = status }

-- `poll` gives what waitpid with WNOHANG reports of a process.
unfoldable pub ssp_get_status : (poll : ℕ → Option ℕ) → ℤ → State → ℤ × State
unfolding polled
ssp_get_status poll (negsuc i) s = (minus_one, s)
ssp_get_status poll (pos i) s = elim (get_elem? s.processes i) [
  | none ↦ (minus_one, s)
  | some p ↦ elim (is_running p.status) [
    | false ↦ (p.status, s)
    | true ↦
        let status = polled (poll p.pid) p.status in
        (status, record s { processes = set s.processes i (with_status p status) })
  ]
]

-- What ssp_wait stores: the status of a process that waitpid waited for.
unfoldable pub waited : (reported : Option ℕ) (old : ℤ) → ℤ
unfolding wifexited wexitstatus wifsignaled wtermsig
waited none old = old
waited (some status) old =
    if wifexited (pos status)
    then wexitstatus status
    else (if wifsignaled (pos status) then pos (wtermsig (pos status) + 128) else pos status)

unfoldable pub wait_all : (wait : ℕ → Option ℕ) → List SubProcess → List SubProcess
unfolding waited
wait_all wait [] = []
wait_all wait (p ∷ ps) =
    let rest = wait_all wait ps in
    (if is_running p.status then with_status p (waited (wait p.pid) p.status) else p) ∷ rest

-- `wait` gives what the blocking waitpid reports of a process; `none` is its failure.
unfoldable pub ssp_wait : (wait : ℕ → Option ℕ) → State → State
unfolding wait_all
ssp_wait wait s = record s { processes = wait_all wait s.processes }
