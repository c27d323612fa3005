-- ===== src/Common/Tables.antt =====
-- Properties of small numbers, checked at each of them.
use Prim.Native.Nat.{ℕ, zero, suc, ◌<◌}
use mathlib.Core.Path.{◌≡◌}
use mathlib.Core.Bool.{Bool, true, ◌&&◌}
use native.Mathlib.Omega.{arith}

unfoldable pub for_all_below : ℕ → (ℕ → Bool) → Bool
for_all_below zero test = true
for_all_below (suc n) test = test n && for_all_below n test

pub for_all_below_lem :
    (n : ℕ) (test : ℕ → Bool) (x : ℕ) → for_all_below n test ≡ true → x < n → test x ≡ true
unfolding for_all_below
for_all_below_lem zero test x h lt = absurd (omega (arith, lt))
for_all_below_lem (suc n) test x h lt = ground (arith, h, lt, for_all_below_lem n test x)
