-- ===== src/Ext2/System.antt =====
-- The file that hello-ext2/src/ext2-create.c writes, and its calls of the operating system.
pub mod Checked
use ece344_operating_system.Common.{
  ℕ, zero, suc, ◌+◌, ◌-◌, ◌*◌, ◌%◌, ◌^◌, Bool, true, false, ◌&&◌, Option, none, some, List, [], ◌∷◌,
  get_or, leb, ltb, if◌then◌else◌,
}

-- What the operating system answers to its calls, which are numbered: the errno of a call that fails
-- or that writes less than it was given, and the time. `stack` is what stands in memory behind the
-- last directory entry of the root.
pub record Environment : Type 0 where
  pub failure : ℕ → Option ℕ
  pub clock : ℕ → ℕ
  pub stack : ℕ → ℕ

-- The file with its bytes and its offset; `calls` counts the calls so far.
pub record System : Type 0 where
  pub image : ℕ → ℕ
  pub size : ℕ
  pub position : ℕ
  pub calls : ℕ

-- A value, or `exit` with a code.
pub data Outcome (A : Type 0) : Type 0 where
  ok : A → System → Outcome A
  exited : (code : ℕ) → Outcome A

abbrev pub M : Type 0 → Type 0
M A = System → Outcome A

abbrev pub pure : {A : Type 0} → A → M A
pure a s = ok a s

abbrev pub bind_outcome : {A B : Type 0} → Outcome A → (A → M B) → Outcome B
bind_outcome (ok a s) f = f a s
bind_outcome (exited code) f = exited code

infixl 5 ◌>>=◌ ◌>>◌
abbrev pub ◌>>=◌ : {A B : Type 0} → M A → (A → M B) → M B
◌>>=◌ m f s = bind_outcome (m s) f

abbrev pub ◌>>◌ : {B : Type 0} → M (Unit {0}) → M B → M B
m >> k = m >>= λ _. k

-- What a failed call makes of errno: `exit (errno)`, or `exit (EXIT_FAILURE)`.
pub data OnError : Type 0 where
  errno_exit exit_failure : OnError

abbrev pub exit_code : OnError → ℕ → ℕ
exit_code errno_exit errno = errno
exit_code exit_failure errno = 1

abbrev pub truncate_bytes : (length size : ℕ) → (ℕ → ℕ) → ℕ → ℕ
truncate_bytes length size image a = if ltb a length && ltb a size then image a else 0

unfoldable pub write_bytes : (position n : ℕ) → (ℕ → ℕ) → (ℕ → ℕ) → ℕ → ℕ
write_bytes position n bytes image a =
    if leb position a && ltb a (position + n) then bytes (a - position) else image a

abbrev pub larger : ℕ → ℕ → ℕ
larger a b = if ltb a b then b else a

-- What the calls do to the file when they succeed.
abbrev pub at_offset : ℕ → System → System
at_offset offset s = record s { position = offset }

abbrev pub written : (n : ℕ) → (ℕ → ℕ) → System → System
written n bytes s = record s {
  image = write_bytes s.position n bytes s.image;
  position = s.position + n;
  size = larger s.size (s.position + n);
}

abbrev pub truncated : (length : ℕ) → System → System
truncated length s = record s { image = truncate_bytes length s.size s.image; size = length }

module _ (env : Environment) where
  -- A call whose result is tested, with its effect if it succeeds.
  unfoldable pub system_call : OnError → (System → System) → M (Unit {0})
  system_call on_error effect s = elim (env.failure s.calls) [
    | some errno ↦ exited (exit_code on_error errno)
    | none ↦ ok tt (effect (record s { calls = s.calls + 1 }))
  ]

  unfoldable pub lseek : OnError → ℕ → M (Unit {0})
  unfolding system_call
  lseek on_error offset = system_call on_error (at_offset offset)

  -- `n` bytes, given by their index.
  unfoldable pub write : OnError → (n : ℕ) → (ℕ → ℕ) → M (Unit {0})
  unfolding system_call
  write on_error n bytes = system_call on_error (written n bytes)

  unfoldable pub ftruncate : ℕ → M (Unit {0})
  unfolding system_call
  ftruncate length = system_call errno_exit (truncated length)

  -- A call that only can fail: open and close.
  unfoldable pub plain_call : M (Unit {0})
  unfolding system_call
  plain_call = system_call errno_exit (λ s. s)

  -- The time is converted to a u32.
  unfoldable pub get_current_time : M ℕ
  unfolding plain_call
  get_current_time s = (do plain_call; pure (env.clock s.calls % 2 ^ 32)) s

-- The elements of an array of bytes.
abbrev pub bytes_of : List ℕ → ℕ → ℕ
bytes_of xs i = get_or xs i 0
