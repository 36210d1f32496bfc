-- ===== src/Base/Word.antt =====
-- Machine words: 8-, 16- and 32-bit values as numbers that wrap, and bytes checked by table.
use Prim.Native.Nat.{ℕ, zero, suc, ◌<◌}
use mathlib.Core.Path.{◌≡◌}
use mathlib.Core.Bool.{Bool, true, ◌&&◌}
use native.Mathlib.Omega.{arith}

-- Every value below a bound passes a test.
unfoldable pub all_below : ℕ → (ℕ → Bool) → Bool
all_below zero law = true
all_below (suc bound) law = all_below bound law && law bound

-- What a table has checked holds of every value in its range.
pub law-all_below :
    (law : ℕ → Bool) (bound : ℕ)
    → all_below bound law ≡ true
    → (value : ℕ) → value < bound
    → law value ≡ true
unfolding all_below
law-all_below law zero table value lt = absurd (omega arith)
law-all_below law (suc bound) table value lt = ground (arith, law-all_below law bound _ value)
