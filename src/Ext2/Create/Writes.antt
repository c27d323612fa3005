-- ===== src/Ext2/Create/Writes.antt =====
-- The file after the writes of hello-ext2/src/ext2-create.c.
use ece344_operating_system.Common.{
  length, ℕ, ◌+◌, ◌%◌, ◌^◌, ◌<◌, arith, ◌≡◌, refl, ap, ◌∙◌, sym, Option, none, some, List, [], ◌∷◌,
}
use ece344_operating_system.Ext2.Writes.{
  Write, write_at, after_writes, after_writes-above, write_bytes-above, write_bytes-here,
}
use ece344_operating_system.Ext2.System.{
  bytes_of, write_bytes, Environment, System, Outcome, ok, exited,
}
use ece344_operating_system.Ext2.System.Checked.{no_failure, first_failure, exited_or}
use ece344_operating_system.Ext2.Create.Checked.{main_calls, main-error}
use ece344_operating_system.Ext2.Create.{main, opened}
use ece344_operating_system.Ext2.Directories.{
  entry_memory, root_entry, named_rec_len, hello_rec_len, dir_entry_set, empty_entry,
  dir_entry_bytes, dot, dot_dot, lost_found, hello_world, hello, file_content,
}
use ece344_operating_system.Ext2.Bitmaps.{block_bitmap, inode_bitmap}
use ece344_operating_system.Ext2.Inodes.{
  inode_bytes, lost_and_found_inode, root_inode, hello_world_inode, hello_inode,
}
use ece344_operating_system.Ext2.Layout.{
  block_size, ext2_root_ino, lost_and_found_ino, hello_world_ino, hello_ino,
}

-- The file that a run leaves.
abbrev pub file_of : {A : Type 0} → System → Outcome A → System
file_of s (ok a t) = t
file_of s (exited code) = s

module _ (env : Environment) (image : ℕ → ℕ) (size : ℕ) where
  abbrev pub final : System
  final = file_of (opened image size) (main (no_failure env) (opened image size))

  -- The writes behind the bitmaps.
  abbrev later_writes : List Write
  later_writes =
      let t = env.clock 12 % 2 ^ 32 in
      write_at 6400 128 (bytes_of (inode_bytes (lost_and_found_inode t)))
      ∷ write_at 5248 128 (bytes_of (inode_bytes (root_inode t)))
      ∷ write_at 6528 128 (bytes_of (inode_bytes (hello_world_inode t)))
      ∷ write_at 6656 128 (bytes_of (inode_bytes (hello_inode t)))
      ∷ write_at 21504 12 (entry_memory env.stack (root_entry ext2_root_ino 12 dot))
      ∷ write_at 21516 12 (entry_memory env.stack (root_entry ext2_root_ino 12 dot_dot))
      ∷ write_at 21528 24 (
          entry_memory env.stack
            (root_entry lost_and_found_ino (named_rec_len (length lost_found)) lost_found))
      ∷ write_at 21552 24 (
          entry_memory env.stack
            (root_entry hello_world_ino (named_rec_len (length hello_world)) hello_world))
      ∷ write_at 21576 952 (entry_memory env.stack (root_entry hello_ino hello_rec_len hello))
      ∷ write_at 22528 12
          (entry_memory env.stack (dir_entry_set empty_entry lost_and_found_ino dot))
      ∷ write_at 22540 12 (entry_memory env.stack (dir_entry_set empty_entry ext2_root_ino dot_dot))
      ∷ write_at 22552 6 (bytes_of (dir_entry_bytes (record empty_entry { rec_len = 1000 })))
      ∷ write_at 23552 12 (bytes_of file_content)
      ∷ []

  final-later_writes :
      (before : ℕ → ℕ) × (final.image
        ≡ after_writes later_writes (
            write_bytes 4096 block_size inode_bitmap
              (write_bytes 3072 block_size block_bitmap before)))
  unfolding main
  final-later_writes = (_, refl)

  final-below :
      (a : ℕ)
      → a < 5120
      → final.image a
        ≡ write_bytes 4096 block_size inode_bitmap
            (write_bytes 3072 block_size block_bitmap (final-later_writes.0))
            a
  final-below a lt =
      ap (λ f. f a) (final-later_writes.1) ∙ after_writes-above 5120 later_writes _ a refl lt

  pub final-block_bitmap : (a : ℕ) → a < block_size → final.image (3072 + a) ≡ block_bitmap a
  final-block_bitmap a lt =
      final-below (3072 + a) (omega (arith, lt))
      ∙ write_bytes-above 4096 1024 _ _ (3072 + a) (omega (arith, lt))
      ∙ write_bytes-here 3072 1024 _ _ a lt

  pub final-inode_bitmap : (a : ℕ) → a < block_size → final.image (4096 + a) ≡ inode_bitmap a
  final-inode_bitmap a lt =
      final-below (4096 + a) (omega (arith, lt)) ∙ write_bytes-here 4096 1024 _ _ a lt

  final_eq :
      (early : Option ℕ) (ideal : Outcome (Unit {0})) (t : System)
      → exited_or early ideal ≡ ok tt t
      → file_of (opened image size) ideal ≡ t
  final_eq none ideal t e = ap (file_of (opened image size)) e
  final_eq (some code) ideal t e = absurd (ground (arith, e))

  -- A run that returns leaves what it leaves without failures.
  pub main-final : (t : System) → main env (opened image size) ≡ ok tt t → final ≡ t
  main-final t e =
      let run = (main-error env (opened image size)).0 in
      final_eq (first_failure env main_calls 0) _ t (sym run ∙ e)
