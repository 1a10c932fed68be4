-- ===== src/Base/Integers.antt =====
-- Go's signed `int` in comparisons with constants.
use Prim.Native.Nat.{ℕ}
use mathlib.Core.Bool.{Bool, true, false}
use ztgotroller.Base.Tests.{ltb, ◌==◌}

-- `negsuc n` is `-1 - n`.
pub data ℤ : Type 0 where
  pos negsuc : ℕ → ℤ

-- `i < n`
abbrev pub int_below : ℤ → ℕ → Bool
int_below (pos i) n = ltb i n
int_below (negsuc i) n = true

-- `i > n`
abbrev pub int_above : ℤ → ℕ → Bool
int_above (pos i) n = ltb n i
int_above (negsuc i) n = false

-- `i == n`
abbrev pub int_is : ℤ → ℕ → Bool
int_is (pos i) n = i == n
int_is (negsuc i) n = false
