-- ===== src/Wut/Memory.antt =====
-- Accesses to the globals and the heap of wut/src/wut.c: the array of TCBs, the TCBs, and the ready
-- queue with the macros TAILQ_*.
use ece344_operating_system.Common.{
  ℕ, ◌+◌, Bool, true, false, ◌||◌, Option, none, some, List, [], ◌∷◌, ◌++◌, ltb, ◌==◌,
  if◌then◌else◌,
}
use ece344_operating_system.Common.Family.{update}
use ece344_operating_system.Common.Int.{ℤ, pos, negsuc}
use ece344_operating_system.Wut.State.{
  Thread, Context, initial, entry, yielding, joining, Tcb, ok, fault, M, pure, ◌>>=◌, ◌>>◌, Event,
  returned, entered,
}

-- TCB_ARRAY[i], which may be NULL; a read out of bounds is a fault.
unfoldable pub read_array : ℕ → M (Option ℕ)
read_array i s = if ltb i s.max_thread_num then ok (s.array i) s else fault

-- TCB_ARRAY[i] where it is dereferenced at once.
unfoldable pub deref : ℕ → M ℕ
deref i s =
    if ltb i s.max_thread_num then elim (s.array i) [ none ↦ fault | some p ↦ ok p s ] else fault

-- The same at an index that may be negative.
unfoldable pub deref_int : ℤ → M ℕ
deref_int (pos i) s = deref i s
deref_int (negsuc i) s = fault

unfoldable pub get_tcb : ℕ → M Tcb
get_tcb p s = ok (s.tcb p) s

-- A write of fields of the TCB.
unfoldable pub modify : ℕ → (Tcb → Tcb) → M (Unit {0})
modify p f s = ok tt (record s { tcb = update s.tcb p (f (s.tcb p)) })

unfoldable pub set_current : ℕ → M (Unit {0})
set_current i s = ok tt (record s { current = i })

-- malloc (sizeof (THREAD)), with its thread id.
unfoldable pub new_thread_in_q : ℕ → M Thread
new_thread_in_q i s =
    ok (record { address = s.threads; thread_id = i }) (record s { threads = s.threads + 1 })

abbrev pub has_address : ℕ → List Thread → Bool
has_address a [] = false
has_address a (t ∷ q) = (t.address == a) || has_address a q

-- free of an entry. While the entry is in the queue this is a fault, since the queue then leads
-- through freed memory.
unfoldable pub free_thread : Option ℕ → M (Unit {0})
free_thread none s = ok tt s
free_thread (some a) s = if has_address a s.queue then fault else ok tt s

-- TAILQ_INSERT_TAIL
unfoldable pub insert_tail : Thread → M (Unit {0})
insert_tail t s = ok tt (record s { queue = s.queue ++ t ∷ [] })

-- TAILQ_EMPTY
abbrev pub is_empty : List Thread → Bool
is_empty [] = true
is_empty (t ∷ q) = false

-- TAILQ_FIRST and TAILQ_REMOVE of what it gives; a fault if that is NULL.
unfoldable pub take_first : M Thread
take_first s = elim s.queue [ [] ↦ fault | t ∷ q ↦ ok t (record s { queue = q }) ]

abbrev pub remove : ℕ → List Thread → List Thread
remove a [] = []
remove a (t ∷ q) = if t.address == a then q else t ∷ remove a q

-- TAILQ_REMOVE of the entry with this address; a fault if it is NULL or not in the queue.
unfoldable pub remove_thread : Option ℕ → M (Unit {0})
remove_thread none s = fault
remove_thread (some a) s =
    if has_address a s.queue then ok tt (record s { queue = remove a s.queue }) else fault

-- What runs when a saved context is continued: the rest of `wut_yield` or `wut_join`, or the
-- function of a new thread. A freed context is a fault, and so is the one of thread 0 from before its
-- first `swapcontext`, which would run `wut_init` again.
unfoldable pub resume : Option Context → M Event
resume none s = fault
resume (some initial) s = fault
resume (some (entry run)) s = ok (entered run) s
resume (some yielding) s = ok (returned (pos 0)) s
resume (some (joining p)) s =
    (do modify p (λ t. record t { enable = true }); t ← get_tcb p; pure (returned t.status)) s

-- swapcontext: the context of one TCB is saved, that of another continued. A context that was
-- freed cannot be written.
unfoldable pub swap_context : (from to : ℕ) → Context → M Event
swap_context from to here s = elim (s.tcb from).ucontext [
  | none ↦ fault
  | some _ ↦
      (do modify from (λ t. record t { ucontext = some here }); t ← get_tcb to; resume t.ucontext) s
]

-- setcontext
unfoldable pub set_context : (to : ℕ) → M Event
set_context to = do t ← get_tcb to; resume t.ucontext
