-- ===== src/Prelude/Float.antt =====
-- Python's floats, as multiples of one millionth, beside the infinities and the NaN.
use aws_ops_monitor.Prelude.Int.{ℤ, pos, ltb_ℤ}
use aws_ops_monitor.Prelude.Tests.{ltb, ◌==◌, if◌then◌else◌}
use mathlib.Core.Bool.{Bool, true, false, not}
use Prim.Native.Nat.{ℕ, ◌+◌, ◌*◌, ◌/◌, ◌%◌}

-- `num z` is the number z / 1000000.
pub data Float : Type 0 where
  num : ℤ → Float
  infinity neg_infinity nan : Float

abbrev pub micro : ℕ
micro = 1000000

-- a whole number as a float
abbrev pub whole : ℕ → Float
whole n = num (pos (n * micro))

-- `a <= b` of two floats: false where one is a NaN
unfoldable pub le_float : Float → Float → Bool
le_float (num a) (num b) = not (ltb_ℤ b a)
le_float (num a) infinity = true
le_float (num a) neg_infinity = false
le_float (num a) nan = false
le_float infinity infinity = true
le_float infinity _ = false
le_float neg_infinity nan = false
le_float neg_infinity _ = true
le_float nan _ = false

-- `math.isfinite`
unfoldable pub is_finite : Float → Bool
is_finite (num a) = true
is_finite _ = false

-- `round(n / 1000000)`, to the nearest, and from halfway to the even one
unfoldable pub round_micro : ℕ → ℕ
round_micro n =
    let w = n / micro in
    let r = n % micro in
    if ltb r 500000 then w else if ltb 500000 r then w + 1 else if w % 2 == 0 then w else w + 1
