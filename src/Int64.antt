-- ===== src/Int64.antt =====
-- Go's int64 as a 64-bit pattern: a number below 2 ^ 64, negative from 2 ^ 63 on. The conversions
-- between int64 and uint64 are then the identity, and sums and differences wrap as Go's do.
pub mod Laws
use keyp.Base.{ℕ, suc, ◌+◌, ◌-◌, ◌%◌, ◌^◌, ◌<◌, Bool, ltb, leb, if◌then◌else◌}

abbrev pub IsInt64 : ℕ → Type 0
IsInt64 w = w < 2 ^ 64

-- `x < 0`
abbrev pub is_negative : ℕ → Bool
is_negative w = leb (2 ^ 63) w

-- Go's `+` and `-`.
abbrev pub add64 : ℕ → ℕ → ℕ
add64 a b = (a + b) % 2 ^ 64

abbrev pub sub64 : ℕ → ℕ → ℕ
sub64 a b = (a + 2 ^ 64 - b) % 2 ^ 64

-- Go's `<` and `<=`: the patterns are compared with the sign bit flipped.
abbrev pub flip_sign : ℕ → ℕ
flip_sign w = (w + 2 ^ 63) % 2 ^ 64

abbrev pub lt64 : ℕ → ℕ → Bool
lt64 a b = ltb (flip_sign a) (flip_sign b)

abbrev pub le64 : ℕ → ℕ → Bool
le64 a b = leb (flip_sign a) (flip_sign b)

-- The rounds of `for i := 0; i < n; i++`.
abbrev pub rounds : ℕ → ℕ
rounds n = if is_negative n then 0 else n

-- The integer that a pattern stands for; `negsuc n` is -(n + 1).
pub data ℤ : Type 0 where
  pos : ℕ → ℤ
  negsuc : ℕ → ℤ

-- The pattern of an integer in the range of int64.
abbrev pub of_ℤ : ℤ → ℕ
of_ℤ (pos n) = n
of_ℤ (negsuc n) = 2 ^ 64 - suc n

abbrev pub InRange : ℤ → Type 0
InRange (pos n) = n < 2 ^ 63
InRange (negsuc n) = n < 2 ^ 63
