-- ===== src/Prelude/Tables.antt =====
-- Facts about all numbers below a bound, checked by evaluation.
use Prim.Native.Nat.{ℕ, zero, suc, ◌<◌}
use mathlib.Core.Path.{◌≡◌}
use mathlib.Core.Bool.{Bool, true, false}
use native.Mathlib.Omega.{arith}
use libplist.Prelude.Tests.{if◌then◌else◌}

unfoldable pub check_below : (ℕ → Bool) → ℕ → Bool
check_below p zero = true
check_below p (suc n) = if p n then check_below p n else false

-- What the table says of one entry.
pub check_below-at :
    (p : ℕ → Bool) (bound : ℕ) → check_below p bound ≡ true → (i : ℕ) → i < bound → p i ≡ true
unfolding check_below
check_below-at p zero passed i below = absurd (omega arith)
check_below-at p (suc n) passed i below = ground (arith, check_below-at p n (ground arith) i)
