-- ===== src/Ssp/Unknown/Recorded.antt =====
-- Which children record_unknown_processes of ssp/src/ssp.c records.
use ece344_operating_system.Common.{
  ℕ, suc, ◌<◌, ◌≡◌, refl, sym, ap, ◌∙◌, true, false, Option, some, List, [], ◌∷◌, ◌++◌, length,
  arith, if◌then◌else◌, Bool-cases, inl, inr, length-append, append_assoc, append-nil, lt→ltb,
  subst,
}
use ece344_operating_system.Common.Int.{ℤ}
use ece344_operating_system.Ssp.{SubProcess, State, grown, size_increase}
use ece344_operating_system.Ssp.Unknown.{
  Report, is_known, unknown_proc, record_report, record_unknown_processes,
}

-- The reports whose pid is no process of the supervisor, in their order, the first of them at index
-- `num`.
abbrev pub recorded : (heap : ℕ → ℤ) → (num : ℕ) → List SubProcess → List Report → List SubProcess
recorded heap num known [] = []
recorded heap num known (r ∷ rs) =
    if is_known r.pid known
    then recorded heap num known rs
    else unknown_proc (heap num) r ∷ recorded heap (suc num) known rs

-- The state with these unknown processes, in an array with room for one more.
abbrev pub with_unknown : State → List SubProcess → (size : ℕ) → State
with_unknown s ps size = record s { unknown_processes = ps; arr_size_unknown = size }

abbrev pub RecordsAll : Option State → State → List SubProcess → Type 0
RecordsAll o s ps = (size : ℕ) × (o ≡ some (with_unknown s ps size)) × (length ps < size)

grown-lt : (num size : ℕ) → num < size → suc num < grown (suc num) size
unfolding grown size_increase
grown-lt num size lt = ground (arith, lt)

module _ (heap : ℕ → ℤ) (r : Report) (s : State) where
  abbrev one_more : List SubProcess
  one_more = s.unknown_processes ++ unknown_proc (heap (length s.unknown_processes)) r ∷ []

  record_report-known : is_known r.pid s.processes ≡ true → record_report heap r s ≡ some s
  unfolding record_report
  record_report-known e = rw e refl

  record_report-new :
      is_known r.pid s.processes ≡ false
      → length s.unknown_processes < s.arr_size_unknown
      → record_report heap r s
        ≡ some
            (with_unknown s one_more (grown (suc (length s.unknown_processes)) s.arr_size_unknown))
  unfolding record_report
  record_report-new e lt = rw (e, lt→ltb (length s.unknown_processes) s.arr_size_unknown lt) refl

  length-one_more : length one_more ≡ suc (length s.unknown_processes)
  length-one_more = omega (
    arith,
    length-append s.unknown_processes (unknown_proc (heap (length s.unknown_processes)) r ∷ []),
  )

  loop_goes_on :
      (rs : List Report) (t : State)
      → record_report heap r s ≡ some t
      → record_unknown_processes heap (r ∷ rs) s ≡ record_unknown_processes heap rs t
  unfolding record_unknown_processes
  loop_goes_on rs t e = rw (record_unknown_processes, e) refl

-- With room in the array, the loop adds just the reports of children that the supervisor has not
-- created, in their order; it writes inside of the array and leaves room for one more.
pub record_unknown_processes_lem :
    (heap : ℕ → ℤ) (rs : List Report) (s : State)
    → length s.unknown_processes < s.arr_size_unknown
    → RecordsAll
        (record_unknown_processes heap rs s)
        s
        (s.unknown_processes ++ recorded heap (length s.unknown_processes) s.processes rs)
unfolding record_unknown_processes
record_unknown_processes_lem heap [] s lt =
    let all = append-nil s.unknown_processes in
    (
      s.arr_size_unknown,
      ap (λ ps. some (with_unknown s ps s.arr_size_unknown)) (sym all),
      subst (λ ps. length ps < s.arr_size_unknown) (sym all) lt,
    )
record_unknown_processes_lem heap (r ∷ rs) s lt = elim (Bool-cases (is_known r.pid s.processes)) [
  | inl known ↦
      let (size, run, room) = record_unknown_processes_lem heap rs s lt in
      let same : recorded heap (length s.unknown_processes) s.processes rs
          ≡ recorded heap (length s.unknown_processes) s.processes (r ∷ rs) =
        rw known refl in
      let all = ap (λ ps. s.unknown_processes ++ ps) same in
      (
        size,
        loop_goes_on heap r s rs s (record_report-known heap r s known)
            ∙ run
            ∙ ap (λ ps. some (with_unknown s ps size)) all,
        subst (λ ps. length ps < size) all room,
      )
  | inr new ↦
      let num = length s.unknown_processes in
      let t = with_unknown s (one_more heap r s) (grown (suc num) s.arr_size_unknown) in
      let longer = length-one_more heap r s in
      let (size, run, room) = record_unknown_processes_lem heap rs t (
        subst (λ n. n < grown (suc num) s.arr_size_unknown) (sym longer)
          (grown-lt num s.arr_size_unknown lt)) in
      let all : one_more heap r s ++ recorded heap (length (one_more heap r s)) s.processes rs
          ≡ s.unknown_processes ++ recorded heap num s.processes (r ∷ rs) =
        rw (longer, new)
          (append_assoc s.unknown_processes (unknown_proc (heap num) r ∷ [])
            (recorded heap (suc num) s.processes rs)) in
      (
        size,
        loop_goes_on heap r s rs t (record_report-new heap r s new lt)
            ∙ run
            ∙ ap (λ ps. some (with_unknown s ps size)) all,
        subst (λ ps. length ps < size) all room,
      )
]
