-- ===== src/Float64.antt =====
-- Go's float64 as its 64-bit pattern, with the IEEE comparisons.
use keyp.Base.{ℕ, ◌+◌, ◌-◌, ◌*◌, ◌%◌, ◌^◌, Bool, not, ◌&&◌, ◌||◌, ltb, leb, ◌==◌, if◌then◌else◌}
use keyp.Int64.{is_negative}

-- A NaN is larger than the pattern of infinity, the sign aside.
abbrev pub is_nan : ℕ → Bool
is_nan w = ltb (2047 * 2 ^ 52) (w % 2 ^ 63)

-- Numbers are ordered as their ranks; the two zeros have one rank.
abbrev pub rank : ℕ → ℕ
rank w = if is_negative w then 2 ^ 63 - w % 2 ^ 63 else 2 ^ 63 + w

abbrev pub float_eq : ℕ → ℕ → Bool
float_eq a b = not (is_nan a || is_nan b) && rank a == rank b

abbrev pub float_lt : ℕ → ℕ → Bool
float_lt a b = not (is_nan a || is_nan b) && ltb (rank a) (rank b)

abbrev pub float_le : ℕ → ℕ → Bool
float_le a b = not (is_nan a || is_nan b) && leb (rank a) (rank b)
