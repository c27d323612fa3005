-- ===== src/Ext2/Tests.antt =====
-- Runs of hello-ext2/src/ext2-create.c: one that succeeds, over a file that was there before, and one
-- whose first write to the root directory fails.
use ece344_operating_system.Common.{ℕ, ◌+◌, ◌≡◌, refl, none, some, arith, ◌==◌, if◌then◌else◌}
use ece344_operating_system.Ext2.System.{Environment, System, exited, write_bytes}
use ece344_operating_system.Ext2.System.Checked.{no_failure, ReturnsAfter, first_failure}
use ece344_operating_system.Ext2.Create.{main, opened}
use ece344_operating_system.Ext2.Create.Checked.{main-error}
use ece344_operating_system.Ext2.Create.Writes.{final}
use ece344_operating_system.Ext2.Create.Mount.{IsHelloImage, main-IsHelloImage}
use ece344_operating_system.Ext2.Create.Counts.{IsConsistent, main-IsConsistent}
use ece344_operating_system.Ext2.Directories.{
  empty_entry, dir_entry_set, set_rec_len, hello, entry_memory,
}
use ece344_operating_system.Ext2.Directories.RoundTrip.{before_rest, dir_entry_set-records}
use ece344_operating_system.Ext2.Reader.{records}

abbrev quiet : Environment
quiet = record { failure = λ c. none; clock = λ c. 1700000000 + c; stack = λ i. 7 }

abbrev disk_full : Environment
disk_full = record quiet { failure = λ c. if c == 22 then some 28 else none }

abbrev old_file : System
old_file = opened (λ a. 255) 5000

main-error_example :
    (main disk_full old_file ≡ exited 1) × ReturnsAfter 34 (main (no_failure disk_full) old_file)
unfolding first_failure
main-error_example = main-error disk_full old_file

main-IsHelloImage_example : IsHelloImage quiet (final quiet (λ a. 255) 5000)
unfolding main
main-IsHelloImage_example =
    main-IsHelloImage quiet (λ a. 255) 5000 (final quiet (λ a. 255) 5000) refl

main-IsConsistent_example : IsConsistent (final quiet (λ a. 255) 5000)
unfolding main
main-IsConsistent_example =
    main-IsConsistent quiet (λ a. 255) 5000 (final quiet (λ a. 255) 5000) refl

abbrev one_entry : ℕ → ℕ
one_entry =
    write_bytes 0 (dir_entry_set empty_entry 13 hello).rec_len
      (entry_memory (λ i. 7) (dir_entry_set empty_entry 13 hello)) (λ a. 0)

dir_entry_set-records_example :
    records one_entry 2 0 16
    ≡ before_rest (record { ino = 13; name = hello }) (records one_entry 1 (0 + set_rec_len 5) 16)
unfolding set_rec_len
dir_entry_set-records_example =
    dir_entry_set-records empty_entry 13 hello (λ i. 7) (λ a. 0) 0 1 16 (omega arith) (omega arith)
      (omega arith) (omega arith)
