-- ===== src/Pht/Tests.antt =====
-- Runs of the table and of the threads, and the theorems at them.
use ece344_operating_system.Common.{ℕ, ◌≡◌, refl, some, [], ◌∷◌, arith, length, if◌then◌else◌}
use ece344_operating_system.Pht.Hash.{
  CString, str_eq, bernstein_hash, bernstein_hash-polynomial, polynomial, u32,
}
use ece344_operating_system.Pht.Chain.{get_list_entry, set_value, insert_head}
use ece344_operating_system.Pht.Base.{
  HashTable, bucket, create, add_entry, add_to_chain, contains, get_value, destroy, get_list_head,
}
use ece344_operating_system.Pht.Locked.{
  System, init, Reach, start, later, call, lock, ends, link, publish, unlock,
}
use ece344_operating_system.Pht.Base.Lookup.{create-IsSized, get_value-add_entry}
use ece344_operating_system.Pht.Base.Entries.{IsValid}
use ece344_operating_system.Pht.Locked.Invariant.{weigh}
use ece344_operating_system.Pht.Locked.Safety.{
  get_value-last_write, last_write, Reach-IsValid, IsQuiet, contains-called, called, quiet-weigh,
}
use ece344_operating_system.Pht.Locked.Progress.{Advance, no_deadlock}
use ece344_operating_system.Pht.V1
use ece344_operating_system.Pht.V2

-- What a run computes with.
program : Unit {0}
unfolding init get_list_head create bucket bernstein_hash str_eq
program = tt

abbrev key_a : CString
key_a = b'a' ∷ b'b' ∷ []

abbrev key_a_terminated : CString
key_a_terminated = b'a' ∷ b'b' ∷ 0 ∷ b'c' ∷ []

hash_ab : bernstein_hash key_a ≡ 3299
unfolding bernstein_hash
hash_ab = refl

-- A byte from 128 on is sign-extended.
hash_high : bernstein_hash (0xff ∷ []) ≡ 0xffff_ffff
unfolding bernstein_hash
hash_high = refl

-- A state that `n` threads reach, in one of the versions.
record Run (mutex_of : ℕ → ℕ) (n : ℕ) : Type 0 where
  last : System
  reach : Reach mutex_of n last

-- Thread 0 has called `add_entry`.
abbrev called_once : Run V1.mutex_of 2
unfolding program
called_once = record { last = _; reach = later start (call 0 key_a 7 (omega arith) refl) }

-- It has locked, and thread 1 has called with an equal key.
abbrev contended : Run V1.mutex_of 2
unfolding program
contended = record {
  last = _;
  reach =
      later (later called_once.reach (lock 0 key_a 7 (omega arith) refl refl))
        (call 1 key_a_terminated 8 (omega arith) refl);
}

-- One thread, one add from the call to the return.
abbrev finished : Run V1.mutex_of 1
unfolding program
finished = record {
  last = _;
  reach =
      later
        (later
          (later
            (later
              (later (later start (call 0 key_a 7 (omega arith) refl))
                (lock 0 key_a 7 (omega arith) refl refl))
              (ends 0 key_a 7 0 (omega arith) refl refl))
            (link 0 key_a 7 (omega arith) refl))
          (publish 0 key_a 7 [] (omega arith) refl))
        (unlock 0 key_a 7 (omega arith) refl);
}

-- The second version: thread 0 is inside a bucket, and thread 1 has called with an equal key.
abbrev same_bucket : Run V2.mutex_of 2
unfolding program
same_bucket = record {
  last = _;
  reach =
      later
        (later (later start (call 0 key_a 7 (omega arith) refl))
          (lock 0 key_a 7 (omega arith) refl refl))
        (call 1 key_a_terminated 8 (omega arith) refl);
}

-- The table after two adds under keys that compare equal.
abbrev two_adds : HashTable
two_adds = add_entry (add_entry create key_a 7) key_a_terminated 8

get_value-two_adds : get_value two_adds key_a ≡ some 8
unfolding program add_entry get_value get_list_entry add_to_chain insert_head set_value
get_value-two_adds = refl

destroy-two_adds : length (destroy two_adds) ≡ 1
unfolding program add_entry destroy get_list_entry add_to_chain insert_head set_value
destroy-two_adds = refl

get_value-add_entry_example :
    get_value (add_entry create key_a 7) key_a_terminated
    ≡ (if str_eq key_a key_a_terminated then some 7 else get_value create key_a_terminated)
get_value-add_entry_example = get_value-add_entry create key_a key_a_terminated 7 create-IsSized

bernstein_hash-polynomial_example : bernstein_hash key_a ≡ u32 (polynomial 0 key_a)
bernstein_hash-polynomial_example = bernstein_hash-polynomial key_a

get_value-last_write_example :
    get_value finished.last.table key_a ≡ last_write key_a finished.last.writes
get_value-last_write_example = get_value-last_write key_a finished.reach

Reach-IsValid_example : IsValid finished.last.table
Reach-IsValid_example = Reach-IsValid finished.reach

finished-IsQuiet : IsQuiet finished.last
unfolding program
finished-IsQuiet i = ground arith

contains-called_example :
    contains finished.last.table key_a_terminated ≡ called key_a_terminated finished.last.calls
contains-called_example = contains-called key_a_terminated finished.reach finished-IsQuiet

quiet-weigh_example : weigh (λ k v. v) finished.last.calls ≡ weigh (λ k v. v) finished.last.writes
quiet-weigh_example = quiet-weigh (λ k v. v) finished.reach finished-IsQuiet

no_deadlock_example : Advance V1.mutex_of 2 contended.last
unfolding program
no_deadlock_example = no_deadlock contended.reach 1 (omega arith) (ground arith)
