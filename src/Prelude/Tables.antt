-- ===== src/Prelude/Tables.antt =====
-- A statement about every number below a bound, checked by evaluation.
use Prim.Native.Nat.{ℕ, zero, suc, ◌<◌}
use mathlib.Core.Path.{◌≡◌}
use mathlib.Core.Bool.{Bool, true, ◌&&◌}
use native.Mathlib.Omega.{arith}

unfoldable pub all_below : ℕ → (ℕ → Bool) → Bool
all_below zero test = true
all_below (suc n) test = test n && all_below n test

pub all_below_sound :
    (n : ℕ) (test : ℕ → Bool) (m : ℕ) → all_below n test ≡ true → m < n → test m ≡ true
unfolding all_below
all_below_sound zero test m all below = absurd (omega arith)
all_below_sound (suc n) test m all below = ground (arith, all_below_sound n test m)
