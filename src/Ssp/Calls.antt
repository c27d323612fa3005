-- ===== src/Ssp/Calls.antt =====
-- Sequences of calls of ssp/src/ssp.c: no write is out of bounds, and a status that is known stays.
use mathlib.Core.Option
use ece344_operating_system.Common.{
  ℕ, zero, suc, ◌<◌, ◌≡◌, refl, ap, ◌⊎◌, inl, inr, true, false, Option, none, some, List, [], ◌∷◌,
  ◌++◌, length, get_elem?, set, arith, Bool-cases, Option-cases, ℕ_discrete, length-append,
  length-set, get_elem?-set_ne, lt→ltb,
}
use ece344_operating_system.Common.Int.{ℤ, pos, negsuc}
use ece344_operating_system.Ssp.{
  minus_one, is_running, SubProcess, State, ssp_init, size_increase, grown, ssp_create, polled,
  with_status, ssp_get_status, wait_all, ssp_wait,
}
use ece344_operating_system.Ssp.Signals.{Kill, ssp_send_signal}
use ece344_operating_system.Ssp.Unknown.{Report, Row, print_known, ssp_print, space_of}
use ece344_operating_system.Ssp.Unknown.Recorded.{record_unknown_processes_lem}
use ece344_operating_system.Ssp.Program.{
  Call, create, get_status, wait, send_signal, print, perform, perform_all,
}
use ece344_operating_system.Ssp.Status.{status_at, wait_all-ended}

-- Both arrays have a free entry.
abbrev HasRoom : State → Type 0
HasRoom s =
    (length s.processes < s.arr_size_proc) × (length s.unknown_processes < s.arr_size_unknown)

length-wait_all : (w : ℕ → Option ℕ) (ps : List SubProcess) → length (wait_all w ps) ≡ length ps
unfolding wait_all
length-wait_all w [] = refl
length-wait_all w (p ∷ ps) = ap suc (length-wait_all w ps)

-- The state after fork gave a child.
abbrev created : ℕ → List ℕ → State → State
created pid name s = record s {
  processes = s.processes ++ (record { pid = pid; name = name; status = minus_one }) ∷ [];
  arr_size_proc = grown (suc (length s.processes)) s.arr_size_proc;
}

create-created :
    (pid : ℕ) (name : List ℕ) (s : State)
    → HasRoom s
    → ssp_create (some pid) name s ≡ some (pos (length s.processes), created pid name s)
unfolding ssp_create
create-created pid name s room = rw (lt→ltb (length s.processes) s.arr_size_proc room.0) refl

created-HasRoom : (pid : ℕ) (name : List ℕ) (s : State) → HasRoom s → HasRoom (created pid name s)
unfolding grown size_increase
created-HasRoom pid name s room =
    let one_more =
      length-append s.processes ((record { pid = pid; name = name; status = minus_one }) ∷ []) in
    (ground (arith, one_more, room.0), room.1)

-- ssp_get_status leaves all as it is, or gives a running process a status.
get_status-cases :
    (poll : ℕ → Option ℕ) (id : ℤ) (s : State)
    → ((ssp_get_status poll id s).1 ≡ s)
      ⊎ ((i : ℕ) × (p : SubProcess) × (v : ℤ) × (get_elem? s.processes i ≡ some p)
          × (is_running p.status ≡ true)
          × ((ssp_get_status poll id s).1
              ≡ record s { processes = set s.processes i (with_status p v) }))
unfolding ssp_get_status
get_status-cases poll (negsuc i) s = inl refl
get_status-cases poll (pos i) s = elim (Option-cases (get_elem? s.processes i)) [
  | inl e ↦ inl (rw (ssp_get_status, e) refl)
  | inr (p, e) ↦ elim (Bool-cases (is_running p.status)) [
    | inl running ↦
        inr (i, p, polled (poll p.pid) p.status, e, running, rw (ssp_get_status, e, running) refl)
    | inr ended ↦ inl (rw (ssp_get_status, e, ended) refl)
  ]
]

get_status-HasRoom :
    (poll : ℕ → Option ℕ) (id : ℤ) (s : State) → HasRoom s → HasRoom (ssp_get_status poll id s).1
get_status-HasRoom poll id s room = elim (get_status-cases poll id s) [
  | inl e ↦ rw e room
  | inr (i, p, v, _, _, e) ↦
      rw e (omega (arith, length-set s.processes i (with_status p v), room.0), room.1)
]

-- The status of an entry that another one is written beside stays.
status_at-set :
    (ps : List SubProcess) (i j : ℕ) (p : SubProcess) (u v : ℤ)
    → status_at ps i ≡ some v
    → is_running v ≡ false
    → get_elem? ps j ≡ some p
    → is_running p.status ≡ true
    → status_at (set ps j (with_status p u)) i ≡ some v
status_at-set ps i j p u v h ended e running = elim (ℕ_discrete j i) [
  | yes same ↦ absurd (ground (arith, same, h, ended, e, running))
  | no other ↦ rw (status_at, get_elem?-set_ne ps (with_status p u) other) h
]

status_at-append :
    (ps rest : List SubProcess) (i : ℕ) (v : ℤ)
    → status_at ps i ≡ some v
    → status_at (ps ++ rest) i ≡ some v
status_at-append [] rest i v h = absurd (ground (arith, h))
status_at-append (p ∷ ps) rest zero v h = h
status_at-append (p ∷ ps) rest (suc i) v h = status_at-append ps rest i v h

-- What a call keeps: the room for one more entry, and each status that is known.
record Kept (s t : State) : Type 0 where
  room : HasRoom t
  statuses :
      (i : ℕ) (v : ℤ)
      → status_at s.processes i ≡ some v
      → is_running v ≡ false
      → status_at t.processes i ≡ some v

same-Kept : (s : State) → HasRoom s → Kept s s
same-Kept s room = record { room = room; statuses = λ i v h e. h }

next-Kept : (s t u : State) → Kept s t → Kept t u → Kept s u
next-Kept s t u first second = record {
  room = second.room;
  statuses = λ i v h e. second.statuses i v (first.statuses i v h e) e;
}

get_status-Kept :
    (poll : ℕ → Option ℕ) (id : ℤ) (s : State) → HasRoom s → Kept s (ssp_get_status poll id s).1
get_status-Kept poll id s room = record {
  room = get_status-HasRoom poll id s room;
  statuses = λ i v h ended. elim (get_status-cases poll id s) [
    | inl e ↦ rw e h
    | inr (j, p, u, at, running, e) ↦ rw e (status_at-set s.processes i j p u v h ended at running)
  ];
}

-- A signal to a process leaves the state that ssp_get_status leaves.
signal_state :
    (poll : ℕ → Option ℕ) (i signum : ℕ) (s : State) (p : SubProcess)
    → get_elem? s.processes i ≡ some p
    → Option.map (λ (r : Option Kill × State). r.1) (ssp_send_signal poll (pos i) signum s)
      ≡ some (ssp_get_status poll (pos i) s).1
unfolding ssp_send_signal
signal_state poll i signum s p e = rw (ssp_send_signal, e) refl

send_signal-Kept :
    (poll : ℕ → Option ℕ) (i signum : ℕ) (s : State)
    → HasRoom s
    → (t : State) × (Option.map
          (λ (r : Option Kill × State). r.1)
          (ssp_send_signal poll (pos i) signum s)
        ≡ some t)
      × Kept s t
unfolding ssp_send_signal
send_signal-Kept poll i signum s room = elim (Option-cases (get_elem? s.processes i)) [
  | inl e ↦ (s, rw (ssp_send_signal, e) refl, same-Kept s room)
  | inr (p, e) ↦ (
    (ssp_get_status poll (pos i) s).1,
    signal_state poll i signum s p e,
    get_status-Kept poll (pos i) s room,
  )
]

print_known-Kept :
    (poll : ℕ → Option ℕ) (space rounds i : ℕ) (s : State)
    → HasRoom s
    → Kept s (print_known poll space rounds i s).1
unfolding print_known
print_known-Kept poll space zero i s room = same-Kept s room
print_known-Kept poll space (suc rounds) i s room =
    let t = (ssp_get_status poll (pos i) s).1 in
    let first = get_status-Kept poll (pos i) s room in
    next-Kept s t (print_known poll space rounds (suc i) t).1 first
      (print_known-Kept poll space rounds (suc i) t first.room)

print-Kept :
    (poll : ℕ → Option ℕ) (heap : ℕ → ℤ) (reports : List Report) (s : State)
    → HasRoom s
    → (t : State) × (Option.map (λ (r : List Row × State). r.1) (ssp_print poll heap reports s)
        ≡ some t)
      × Kept s t
unfolding ssp_print
print-Kept poll heap reports s room =
    let t = (print_known poll (space_of s.processes) (length s.processes) 0 s).1 in
    let known = print_known-Kept poll (space_of s.processes) (length s.processes) 0 s room in
    let (size, run, rest) = record_unknown_processes_lem heap reports t known.room.1 in
    (
      _,
      rw (ssp_print, run) refl,
      next-Kept s t _ known (record { room = (known.room.0, rest); statuses = λ i v h e. h }),
    )

perform-Kept : (c : Call) (s : State) → HasRoom s → (t : State) × (perform c s ≡ some t) × Kept s t
unfolding perform ssp_create ssp_wait
perform-Kept (create none name) s room = (s, refl, record { room = room; statuses = λ i v h e. h })
perform-Kept (create (some pid) name) s room = (
  created pid name s,
  ap (Option.map (λ (r : ℤ × State). r.1)) (create-created pid name s room),
  record {
    room = created-HasRoom pid name s room;
    statuses = λ i v h e. status_at-append s.processes _ i v h;
  },
)
perform-Kept (get_status poll id) s room =
    ((ssp_get_status poll id s).1, refl, get_status-Kept poll id s room)
perform-Kept (wait reported) s room = (
  ssp_wait reported s,
  refl,
  record {
    room = (omega (arith, length-wait_all reported s.processes, room.0), room.1);
    statuses = λ i v h ended. wait_all-ended reported s.processes i v h ended;
  },
)
perform-Kept (send_signal poll i signum) s room = send_signal-Kept poll i signum s room
perform-Kept (print poll heap reports) s room = print-Kept poll heap reports s room

perform_all-Kept :
    (cs : List Call) (s : State) → HasRoom s → (t : State) × (perform_all cs s ≡ some t) × Kept s t
unfolding perform_all
perform_all-Kept [] s room = (s, refl, record { room = room; statuses = λ i v h e. h })
perform_all-Kept (c ∷ cs) s room =
    let (t, run, kept) = perform-Kept c s room in
    let (u, runs, later) = perform_all-Kept cs t kept.room in
    (
      u,
      rw (perform_all, run) runs,
      record {
        room = later.room;
        statuses = λ i v h e. later.statuses i v (kept.statuses i v h e) e;
      },
    )

-- After ssp_init, any calls, with signals to ids that are not negative, with any answers of the operating
-- system write inside of both arrays, and once a process has a status, no later call changes it.
pub status_is_kept :
    (before after : List Call)
    → (s : State) × (t : State) × (perform_all before ssp_init ≡ some s)
      × (perform_all after s ≡ some t)
      × ((i : ℕ) (v : ℤ)
          → status_at s.processes i ≡ some v
          → is_running v ≡ false
          → status_at t.processes i ≡ some v)
unfolding ssp_init
status_is_kept before after =
    let (s, run, kept) = perform_all-Kept before ssp_init (omega arith, omega arith) in
    let (t, runs, later) = perform_all-Kept after s kept.room in (s, t, run, runs, later.statuses)
