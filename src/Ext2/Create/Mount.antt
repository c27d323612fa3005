-- ===== src/Ext2/Create/Mount.antt =====
-- What the file is that main of hello-ext2/src/ext2-create.c leaves.
use ece344_operating_system.Common.{
  ◌⊎◌, inl, inr, map, subst, ℕ, ◌+◌, ◌*◌, ◌/◌, ◌%◌, ◌^◌, arith, ◌≡◌, refl, true, some, List, [],
  ◌∷◌, ◌++◌,
}
use ece344_operating_system.Ext2.System.{write_bytes, Environment, System, ok}
use ece344_operating_system.Ext2.Create.Writes.{final, main-final}
use ece344_operating_system.Ext2.Create.{main, opened}
use ece344_operating_system.Ext2.Directories.{
  dot, dot_dot, lost_found, hello_world, hello, file_content,
}
use ece344_operating_system.Ext2.Reader.{
  DirectoryEntry, has_file_system, read_bytes, read_u32, inode_address, directory, file_bytes,
  link_target, links_count, file_type, count_entries,
}

abbrev pub root_entries : List DirectoryEntry
root_entries =
    record { ino = 2; name = dot }
    ∷ record { ino = 2; name = dot_dot }
    ∷ record { ino = 11; name = lost_found }
    ∷ record { ino = 12; name = hello_world }
    ∷ record { ino = 13; name = hello }
    ∷ []

abbrev pub lost_and_found_entries : List DirectoryEntry
lost_and_found_entries = record { ino = 11; name = dot } ∷ record { ino = 2; name = dot_dot } ∷ []

-- The times of access, change and modification of an inode.
abbrev pub HasTimes : (ℕ → ℕ) → (ino time : ℕ) → Type 0
HasTimes image ino time =
    (read_u32 image (inode_address image ino + 8) ≡ time)
    × (read_u32 image (inode_address image ino + 12) ≡ time)
    × (read_u32 image (inode_address image ino + 16) ≡ time)

-- The types of inodes: 4 a directory, 8 a file, 10 a link.
pub record IsHelloImage (env : Environment) (t : System) : Type 0 where
  pub length : t.size ≡ 1048576
  pub formatted : has_file_system t.image t.size ≡ true
  pub volume : read_bytes t.image 5 1144 ≡ hello
  pub types : map (file_type t.image) (2 ∷ 11 ∷ 12 ∷ 13 ∷ []) ≡ 4 ∷ 4 ∷ 8 ∷ 10 ∷ []
  pub root : directory t.image 2 ≡ some root_entries
  pub lost_and_found : directory t.image 11 ≡ some lost_and_found_entries
  pub file : file_bytes t.image 12 ≡ file_content
  pub link : link_target t.image 13 ≡ hello_world
  pub links :
      map (links_count t.image) (2 ∷ 11 ∷ 12 ∷ 13 ∷ [])
      ≡ map
          (λ ino. count_entries ino (root_entries ++ lost_and_found_entries))
          (2 ∷ 11 ∷ 12 ∷ 13 ∷ [])
  pub written_at : read_u32 t.image 1072 ≡ env.clock 4 % 2 ^ 32
  pub checked_at : read_u32 t.image 1088 ≡ env.clock 4 % 2 ^ 32
  pub times :
      (ino : ℕ)
      → (ino ≡ 2) ⊎ (ino ≡ 11) ⊎ (ino ≡ 12) ⊎ (ino ≡ 13)
      → HasTimes t.image ino (env.clock 12 % 2 ^ 32)

-- The four bytes of a number.
four_bytes :
    (x : ℕ)
    → x % 2 ^ 32 % 256
        + 256 * (x % 2 ^ 32 / 256 % 256)
        + 65536 * (x % 2 ^ 32 / 256 / 256 % 256 + 256 * (x % 2 ^ 32 / 256 / 256 / 256 % 256))
      ≡ x % 2 ^ 32
four_bytes x = omega arith

final-HasTimes :
    (env : Environment) (image : ℕ → ℕ) (size ino : ℕ)
    → (ino ≡ 2) ⊎ (ino ≡ 11) ⊎ (ino ≡ 12) ⊎ (ino ≡ 13)
    → HasTimes (final env image size).image ino (env.clock 12 % 2 ^ 32)
unfolding main write_bytes
final-HasTimes env image size ino (inl e) =
    rw e (four_bytes (env.clock 12), four_bytes (env.clock 12), four_bytes (env.clock 12))
final-HasTimes env image size ino (inr (inl e)) =
    rw e (four_bytes (env.clock 12), four_bytes (env.clock 12), four_bytes (env.clock 12))
final-HasTimes env image size ino (inr (inr (inl e))) =
    rw e (four_bytes (env.clock 12), four_bytes (env.clock 12), four_bytes (env.clock 12))
final-HasTimes env image size ino (inr (inr (inr e))) =
    rw e (four_bytes (env.clock 12), four_bytes (env.clock 12), four_bytes (env.clock 12))

final-IsHelloImage :
    (env : Environment) (image : ℕ → ℕ) (size : ℕ) → IsHelloImage env (final env image size)
unfolding main write_bytes directory
final-IsHelloImage env image size = record {
  length = refl;
  formatted = refl;
  volume = refl;
  types = refl;
  root = refl;
  lost_and_found = refl;
  file = refl;
  link = refl;
  links = refl;
  written_at = four_bytes (env.clock 4);
  checked_at = four_bytes (env.clock 4);
  times = final-HasTimes env image size;
}

-- Whatever the file held before, once main returns it is a file system of 1024 blocks, named hello: its
-- times of the last write and check are the one that the clock gave first, those of access, change and
-- modification of all four inodes the one that it gave next; the root holds lost+found, the file hello-world, with its text, and
-- hello, a link to hello-world, and the link counts of all four inodes count their entries.
pub main-IsHelloImage :
    (env : Environment) (image : ℕ → ℕ) (size : ℕ) (t : System)
    → main env (opened image size) ≡ ok tt t
    → IsHelloImage env t
main-IsHelloImage env image size t e =
    subst (IsHelloImage env) (main-final env image size t e) (final-IsHelloImage env image size)
