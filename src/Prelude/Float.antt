-- ===== src/Prelude/Float.antt =====
-- `float` (IEEE 754 binary32). Every finite value is a whole multiple of 2^-149, so `finite n` is
-- n * 2^-149; the two zeros are one value, since no comparison of the program tells them apart.
use Prim.Native.Nat.{◌^◌}
use mathlib.Core.Bool.{Bool, true, false}
use stv_renew.Prelude.Tests.{if◌then◌else◌}
use stv_renew.Prelude.Int.{ℤ, pos, ltb_ℤ}

pub data Float : Type 0 where
  nan neg_infinity infinity : Float
  finite : ℤ → Float

abbrev pub float_zero : Float
float_zero = finite (pos 0)

abbrev pub float_one : Float
float_one = finite (pos (2 ^ 149))

-- `a < b`: false whenever one side is a NaN.
unfoldable pub float_lt : Float → Float → Bool
float_lt nan _ = false
float_lt _ nan = false
float_lt (finite a) (finite b) = ltb_ℤ a b
float_lt neg_infinity neg_infinity = false
float_lt neg_infinity _ = true
float_lt infinity _ = false
float_lt _ infinity = true
float_lt _ _ = false

-- `std::clamp(v, lo, hi)`: (v < lo) ? lo : (hi < v) ? hi : v.
unfoldable pub clamp : Float → Float → Float → Float
clamp v lo hi = if float_lt v lo then lo else if float_lt hi v then hi else v
