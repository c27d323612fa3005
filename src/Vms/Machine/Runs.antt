-- ===== src/Vms/Machine/Runs.antt =====
-- Runs of the code of vms/src in pieces.
use ece344_operating_system.Common.{◌≡◌, refl, arith}
use ece344_operating_system.Vms.Machine.{
  Machine, Outcome, ok, aborted, exited, fault, bind_outcome, M,
}

-- What goes on after a run that returned.
pub bind-ok :
    {A B : Type 0} (o : Outcome A) (f : A → M B) (b : B) (u : Machine)
    → bind_outcome o f ≡ ok b u
    → (a : A) × (t : Machine) × (o ≡ ok a t) × (f a t ≡ ok b u)
bind-ok (ok a t) f b u h = (a, t, refl, h)
bind-ok aborted f b u h = absurd (ground (arith, h))
bind-ok (exited code) f b u h = absurd (ground (arith, h))
bind-ok fault f b u h = absurd (ground (arith, h))
