-- ===== src/Ext2/System/Checked.antt =====
-- Code of hello-ext2/src/ext2-create.c that tests each call of the operating system.
use ece344_operating_system.Common.{
  ℕ, suc, ◌+◌, ◌%◌, ◌^◌, ◌≡◌, refl, ap, ◌∙◌, sym, Option, none, some, arith, List, [], ◌∷◌, ◌++◌,
  length, length-append, subst,
}
use ece344_operating_system.Ext2.System.{
  Environment, System, Outcome, ok, exited, M, pure, bind_outcome, ◌>>=◌, ◌>>◌, OnError, errno_exit,
  exit_code, at_offset, written, truncated, system_call, lseek, write, ftruncate, plain_call,
  get_current_time,
}

-- The same environment without failures.
abbrev pub no_failure : Environment → Environment
no_failure env = record env { failure = λ _. none }

-- The first of two failures, given by the exit codes.
abbrev pub or_failure : Option ℕ → Option ℕ → Option ℕ
or_failure none later = later
or_failure (some code) later = some code

abbrev pub call_failure : OnError → Option ℕ → Option ℕ
call_failure e none = none
call_failure e (some errno) = some (exit_code e errno)

-- The exit code of the first call that fails, among calls from number `c` on. The list says what an
-- error makes of each.
unfoldable pub first_failure : Environment → List OnError → (c : ℕ) → Option ℕ
first_failure env [] c = none
first_failure env (e ∷ es) c =
    or_failure (call_failure e (env.failure c)) (first_failure env es (suc c))

abbrev pub exited_or : {A : Type 0} → Option ℕ → Outcome A → Outcome A
exited_or none o = o
exited_or (some code) o = exited code

-- A run that returns, and has made `n` calls in all by then.
abbrev pub ReturnsAfter : {A : Type 0} → ℕ → Outcome A → Type 0
ReturnsAfter n (ok a t) = t.calls ≡ n
ReturnsAfter n (exited code) = ⊥

-- Code that makes these calls: it exits at the first that fails, and else is as it would be without
-- failures.
pub record IsChecked {A : Type 0} (calls : List OnError) (m : Environment → M A) : Type 0 where
  pub outcome :
      (env : Environment) (s : System)
      → m env s ≡ exited_or (first_failure env calls s.calls) (m (no_failure env) s)
  pub returns :
      (env : Environment) (s : System)
      → ReturnsAfter (s.calls + length calls) (m (no_failure env) s)

or_failure_assoc :
    (a b c : Option ℕ) → or_failure a (or_failure b c) ≡ or_failure (or_failure a b) c
or_failure_assoc none b c = refl
or_failure_assoc (some code) b c = refl

first_failure-append :
    (env : Environment) (es fs : List OnError) (c : ℕ)
    → first_failure env (es ++ fs) c
      ≡ or_failure (first_failure env es c) (first_failure env fs (c + length es))
unfolding first_failure
first_failure-append env [] fs c = ap (first_failure env fs) (omega arith)
first_failure-append env (e ∷ es) fs c =
    let now = call_failure e (env.failure c) in
    let count : suc c + length es ≡ c + suc (length es) = omega arith in
    ap (or_failure now) (
      first_failure-append env es fs (suc c)
      ∙ ap (λ k. or_failure (first_failure env es (suc c)) (first_failure env fs k)) count)
    ∙ or_failure_assoc now (first_failure env es (suc c)) _

-- A value may depend on the clock.
pub pure-IsChecked :
    {A : Type 0} (value : (ℕ → ℕ) → A) → IsChecked [] (λ env. pure (value env.clock))
unfolding first_failure
pure-IsChecked value = record { outcome = λ env s. refl; returns = λ env s. omega arith }

module _ {A B : Type 0} (f : A → Environment → M B) (es fs : List OnError)
    (next : (a : A) → IsChecked fs (f a)) (env : Environment) where
  bind-exited_or :
      (early : Option ℕ) (n : ℕ) (ideal : Outcome A)
      → ReturnsAfter n ideal
      → bind_outcome (exited_or early ideal) (λ a. f a env)
        ≡ exited_or
            (or_failure early (first_failure env fs n))
            (bind_outcome ideal (λ a. f a (no_failure env)))
  bind-exited_or (some code) n ideal returns = refl
  bind-exited_or none n (ok a t) returns =
      (next a).outcome env t
      ∙ ap (λ k. exited_or (first_failure env fs k) (f a (no_failure env) t)) returns
  bind-exited_or none n (exited code) returns = elim returns [ ]

  bind-ReturnsAfter :
      (n : ℕ) (ideal : Outcome A)
      → ReturnsAfter n ideal
      → ReturnsAfter (n + length fs) (bind_outcome ideal (λ a. f a (no_failure env)))
  bind-ReturnsAfter n (ok a t) returns =
      subst (λ k. ReturnsAfter (k + length fs) (f a (no_failure env) t)) returns
        ((next a).returns env t)
  bind-ReturnsAfter n (exited code) returns = elim returns [ ]

pub bind-IsChecked :
    {A B : Type 0} {es fs : List OnError} {m : Environment → M A} {f : A → Environment → M B}
    → IsChecked es m
    → ((a : A) → IsChecked fs (f a))
    → IsChecked (es ++ fs) (λ env. m env >>= λ a. f a env)
bind-IsChecked {A} {B} {es} {fs} {m} {f} first next = record {
  outcome = λ env s.
      ap (λ o. bind_outcome o (λ a. f a env)) (first.outcome env s)
      ∙ bind-exited_or f es fs next env (first_failure env es s.calls) (s.calls + length es)
          (m (no_failure env) s) (first.returns env s)
      ∙ ap (λ o. exited_or o (bind_outcome (m (no_failure env) s) (λ a. f a (no_failure env))))
          (sym (first_failure-append env es fs s.calls));
  returns = λ env s.
      subst (λ k. ReturnsAfter k (bind_outcome (m (no_failure env) s) (λ a. f a (no_failure env))))
        (omega (arith, length-append es fs))
        (bind-ReturnsAfter f es fs next env (s.calls + length es) (m (no_failure env) s)
          (first.returns env s));
}

pub then-IsChecked :
    {B : Type 0} {es fs : List OnError} {m : Environment → M (Unit {0})} {k : Environment → M B}
    → IsChecked es m
    → IsChecked fs k
    → IsChecked (es ++ fs) (λ env. m env >> k env)
then-IsChecked first next = bind-IsChecked first (λ _. next)

call_outcome :
    (e : OnError) (answer : Option ℕ) (done : Outcome (Unit {0}))
    → elim answer [ some errno ↦ exited (exit_code e errno) | none ↦ done ]
      ≡ exited_or (or_failure (call_failure e answer) none) done
call_outcome e none done = refl
call_outcome e (some errno) done = refl

-- The effect may depend on the stack.
pub system_call-IsChecked :
    (on_error : OnError) (effect : (ℕ → ℕ) → System → System)
    → ((stack : ℕ → ℕ) (s : System) → (effect stack s).calls ≡ s.calls)
    → IsChecked (on_error ∷ []) (λ env. system_call env on_error (effect env.stack))
unfolding system_call first_failure
system_call-IsChecked on_error effect counts = record {
  outcome = λ env s. call_outcome on_error (env.failure s.calls) _;
  returns = λ env s. counts env.stack (record s { calls = s.calls + 1 });
}

pub lseek-IsChecked : (e : OnError) (offset : ℕ) → IsChecked (e ∷ []) (λ env. lseek env e offset)
unfolding lseek
lseek-IsChecked e offset = system_call-IsChecked e (λ k. at_offset offset) (λ k s. refl)

pub write-IsChecked :
    (e : OnError) (n : ℕ) (bytes : (ℕ → ℕ) → ℕ → ℕ)
    → IsChecked (e ∷ []) (λ env. write env e n (bytes env.stack))
unfolding write
write-IsChecked e n bytes = system_call-IsChecked e (λ k. written n (bytes k)) (λ k s. refl)

pub ftruncate-IsChecked : (length : ℕ) → IsChecked (errno_exit ∷ []) (λ env. ftruncate env length)
unfolding ftruncate
ftruncate-IsChecked length = system_call-IsChecked errno_exit (λ k. truncated length) (λ k s. refl)

pub plain_call-IsChecked : IsChecked (errno_exit ∷ []) plain_call
unfolding plain_call
plain_call-IsChecked = system_call-IsChecked errno_exit (λ k s. s) (λ k s. refl)

timed-IsChecked :
    (s : System)
    → IsChecked (errno_exit ∷ []) (λ env. plain_call env >>= λ _. pure (env.clock s.calls % 2 ^ 32))
timed-IsChecked s =
    bind-IsChecked plain_call-IsChecked (λ _. pure-IsChecked (λ clock. clock s.calls % 2 ^ 32))

pub get_current_time-IsChecked : IsChecked (errno_exit ∷ []) get_current_time
unfolding get_current_time
get_current_time-IsChecked = record {
  outcome = λ env s. (timed-IsChecked s).outcome env s;
  returns = λ env s. (timed-IsChecked s).returns env s;
}
