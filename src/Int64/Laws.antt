-- ===== src/Int64/Laws.antt =====
-- The patterns against the integers that they stand for.
use keyp.Base.{ℕ, suc, ◌+◌, ◌-◌, ◌^◌, ◌<◌, ◌≡◌, arith, ltb, if◌then◌else◌}
use keyp.Int64.{IsInt64, add64, sub64, lt64, ℤ, pos, negsuc, of_ℤ, InRange}

pub of_ℤ-IsInt64 : (z : ℤ) → InRange z → IsInt64 (of_ℤ z)
of_ℤ-IsInt64 (pos n) h = omega arith
of_ℤ-IsInt64 (negsuc n) h = omega arith

-- The sum of integers, where the library's stands on another ℕ.
infixl 65 ◌+ℤ◌ ◌-ℤ◌
unfoldable pub ◌+ℤ◌ : ℤ → ℤ → ℤ
pos a +ℤ pos b = pos (a + b)
pos a +ℤ negsuc b = if ltb b a then pos (a - suc b) else negsuc (b - a)
negsuc a +ℤ pos b = if ltb a b then pos (b - suc a) else negsuc (a - b)
negsuc a +ℤ negsuc b = negsuc (suc (a + b))

unfoldable pub negate : ℤ → ℤ
negate (pos n) = if ltb 0 n then negsuc (n - 1) else pos 0
negate (negsuc n) = pos (suc n)

unfoldable pub ◌-ℤ◌ : ℤ → ℤ → ℤ
unfolding ◌+ℤ◌ negate
a -ℤ b = a +ℤ negate b

-- Where the true sum is in range, the wrapping sum is its pattern.
pub add64-of_ℤ :
    (a b : ℤ) → InRange a → InRange b → InRange (a +ℤ b) → add64 (of_ℤ a) (of_ℤ b) ≡ of_ℤ (a +ℤ b)
unfolding ◌+ℤ◌
add64-of_ℤ (pos a) (pos b) ha hb h = ground arith
add64-of_ℤ (pos a) (negsuc b) ha hb h = ground arith
add64-of_ℤ (negsuc a) (pos b) ha hb h = ground arith
add64-of_ℤ (negsuc a) (negsuc b) ha hb h = ground arith

pub sub64-of_ℤ :
    (a b : ℤ) → InRange a → InRange b → InRange (a -ℤ b) → sub64 (of_ℤ a) (of_ℤ b) ≡ of_ℤ (a -ℤ b)
unfolding ◌-ℤ◌
sub64-of_ℤ (pos a) (pos b) ha hb h = ground arith
sub64-of_ℤ (pos a) (negsuc b) ha hb h = ground arith
sub64-of_ℤ (negsuc a) (pos b) ha hb h = ground arith
sub64-of_ℤ (negsuc a) (negsuc b) ha hb h = ground arith

-- Two non-negative patterns compare as numbers.
pub lt64_small : (a b : ℕ) → a < 2 ^ 63 → b < 2 ^ 63 → lt64 a b ≡ ltb a b
lt64_small a b ha hb = ground arith
