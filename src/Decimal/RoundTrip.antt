-- ===== src/Decimal/RoundTrip.antt =====
-- `FormatInt` and `ParseInt` against each other.
use keyp.Base.{ℕ, zero, suc, ◌+◌, ◌-◌, ◌*◌, ◌/◌, ◌%◌, ◌^◌, ◌≤◌, ◌<◌, ◌≡◌, refl, sym, ap, ◌∙◌, arith}
use keyp.Base.{[], ◌∷◌, ◌++◌, append_assoc, append-nil, ltb, leb, Bool-cases, inl, inr, true, false}
use keyp.Base.{lt→ltb, le→ltb_false, ltb→lt}
use keyp.Bytes.{Bytes}
use keyp.Int64.{IsInt64}
use keyp.Decimal.{digits, format_uint, format_int64, parsed, parse_digits, parse_uint}
use keyp.Decimal.{parse_int64, signed_range}
use native.Mathlib.Nat.{pow-succ'}

digits_small : (fuel n : ℕ) → n < 10 → digits (suc fuel) n ≡ (48 + n) ∷ []
unfolding digits
digits_small fuel n h = rw (lt→ltb n 10 h)

digits_large :
    (fuel n : ℕ) → 10 ≤ n → digits (suc fuel) n ≡ digits fuel (n / 10) ++ ((48 + n % 10) ∷ [])
unfolding digits
digits_large fuel n h = rw (le→ltb_false n 10 h)

parse_digits_step :
    (acc d n : ℕ) (rest : Bytes)
    → d < 10
    → acc * 10 + d ≡ n
    → n < 2 ^ 64
    → parse_digits acc ((48 + d) ∷ rest) ≡ parse_digits n rest
unfolding parse_digits
parse_digits_step acc d n rest hd e fits =
    let value : acc * 10 + (48 + d - 48) ≡ n = omega arith in
    rw value (rw (lt→ltb n (2 ^ 64) fits) (ground arith))

parse_digits-digits :
    (fuel n : ℕ) (rest : Bytes)
    → n < 10 ^ suc fuel
    → n < 2 ^ 64
    → parse_digits 0 (digits (suc fuel) n ++ rest) ≡ parse_digits n rest
parse_digits-digits zero n rest h fits =
    rw (digits_small 0 n (omega arith))
      (parse_digits_step 0 n n rest (omega arith) (omega arith) fits)
parse_digits-digits (suc fuel) n rest h fits = elim (Bool-cases (ltb n 10)) [
  | inl small ↦
      rw (digits_small (suc fuel) n (ltb→lt _ _ small))
        (parse_digits_step 0 n n rest (ltb→lt _ _ small) (omega arith) fits)
  | inr large ↦
      rw (digits_large (suc fuel) n (ground arith), append_assoc)
        (parse_digits-digits fuel (n / 10) ((48 + n % 10) ∷ rest)
            (omega (arith, pow-succ' 10 (suc fuel))) (omega arith)
          ∙ parse_digits_step (n / 10) (n % 10) n rest (omega arith) (omega arith) fits)
]

-- The digits begin with a digit.
digits_head :
    (fuel n : ℕ) → (c : ℕ) × (cs : Bytes) × (digits (suc fuel) n ≡ c ∷ cs) × (48 ≤ c) × (c ≤ 57)
digits_head zero n = elim (Bool-cases (ltb n 10)) [
  | inl small ↦
      let low : n < 10 = ltb→lt _ _ small in
      (48 + n, [], digits_small zero n low, omega arith, omega arith)
  | inr large ↦
      (48 + n % 10, [], digits_large zero n (ground arith) ∙ digits_zero, omega arith, omega arith)
]
  where
    digits_zero : digits zero (n / 10) ++ ((48 + n % 10) ∷ []) ≡ (48 + n % 10) ∷ []
    digits_zero = unfold digits in refl
digits_head (suc fuel) n =
    let (c, cs, e, low, high) = digits_head fuel (n / 10) in
    elim (Bool-cases (ltb n 10)) [
      | inl small ↦
          let few : n < 10 = ltb→lt _ _ small in
          (48 + n, [], digits_small (suc fuel) n few, omega arith, omega arith)
      | inr large ↦ (
        c,
        cs ++ ((48 + n % 10) ∷ []),
        digits_large (suc fuel) n (ground arith) ∙ ap (λ r. r ++ ((48 + n % 10) ∷ [])) e,
        low,
        high,
      )
    ]

parse_uint-cons : (c : ℕ) (cs : Bytes) → parse_uint (c ∷ cs) ≡ parse_digits 0 (c ∷ cs)
unfolding parse_uint
parse_uint-cons c cs = refl

parse_digits-nil : (n : ℕ) → parse_digits n [] ≡ parsed n
unfolding parse_digits
parse_digits-nil n = refl

pub parse_uint-format_uint : (n : ℕ) → n < 2 ^ 64 → parse_uint (format_uint n) ≡ parsed n
unfolding format_uint
parse_uint-format_uint n h =
    let (c, cs, e, low, high) = digits_head 19 n in
    rw e (
      parse_uint-cons c cs
      ∙ ap (parse_digits 0) (sym e ∙ sym (append-nil _))
      ∙ parse_digits-digits 19 n [] (omega arith) h
      ∙ parse_digits-nil n)

parse_int64-unsigned :
    (c : ℕ) (cs : Bytes) → 48 ≤ c → parse_int64 (c ∷ cs) ≡ signed_range false (parse_uint (c ∷ cs))
unfolding parse_int64
parse_int64-unsigned c cs h = ground arith

parse_int64-minus : (s : Bytes) → parse_int64 (b'-' ∷ s) ≡ signed_range true (parse_uint s)
unfolding parse_int64
parse_int64-minus s = refl

-- Every int64 is read back from what is printed for it, with no error.
pub parse_int64-format_int64 : (w : ℕ) → IsInt64 w → parse_int64 (format_int64 w) ≡ parsed w
unfolding format_int64
parse_int64-format_int64 w h = elim (Bool-cases (leb (2 ^ 63) w)) [
  | inl negative ↦
      rw (negative, parse_int64-minus, parse_uint-format_uint (2 ^ 64 - w) (ground arith))
        (ground arith)
  | inr positive ↦
      let (c, cs, e, low, high) = digits_head 19 w in
      rw positive (
        (unfold format_uint in ap parse_int64 e)
        ∙ parse_int64-unsigned c cs low
        ∙ ap (λ s. signed_range false (parse_uint s)) (unfold format_uint in sym e)
        ∙ ap (signed_range false) (parse_uint-format_uint w h)
        ∙ ground arith)
]
