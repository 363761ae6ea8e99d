-- ===== src/Float.antt =====
-- Python's `float` as far as the program compares it: a finite double is a whole number of
-- units of 2^-1074, so its order is that of the integers. Arithmetic with rounding is a
-- parameter wherever it is used.
use ros2_vlm_demo.Common.{ℕ, ◌^◌, ◌<◌, ◌≡◌, Bool, true, false, arith, if◌then◌else◌}
use ros2_vlm_demo.Common.Int.{ℤ, pos, ltb_ℤ}

pub data Float : Type 0 where
  nan neg_inf pos_inf : Float
  fin : ℤ → Float

-- `a < b`: false as soon as one side is NaN.
abbrev pub lt : Float → Float → Bool
lt nan b = false
lt neg_inf neg_inf = false
lt neg_inf nan = false
lt neg_inf _ = true
lt pos_inf b = false
lt (fin a) pos_inf = true
lt (fin a) (fin b) = ltb_ℤ a b
lt (fin a) _ = false

-- `a <= b`
abbrev pub le : Float → Float → Bool
le nan b = false
le neg_inf nan = false
le neg_inf _ = true
le pos_inf pos_inf = true
le pos_inf _ = false
le (fin a) nan = false
le (fin a) neg_inf = false
le (fin a) pos_inf = true
le (fin a) (fin b) = if ltb_ℤ b a then false else true

-- The number of units in 1.0.
unfoldable pub one_units : ℕ
one_units = 2 ^ 1074

pub one_units_pos : 0 < one_units
unfolding one_units
one_units_pos = omega arith

abbrev pub zero_f : Float
zero_f = fin (pos 0)

abbrev pub one_f : Float
one_f = fin (pos one_units)

unfoldable pub half_f : Float
half_f = fin (pos (2 ^ 1073))

pub lt-trans_le : (a b c : Float) → lt a b ≡ true → le b c ≡ true → lt a c ≡ true
lt-trans_le a b c h k = ground arith

pub lt-asymm : (a b : Float) → lt a b ≡ true → lt b a ≡ false
lt-asymm a b h = ground arith
