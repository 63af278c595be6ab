-- ===== src/Decimal.antt =====
-- Go's `strconv.FormatInt`, `FormatUint` and `ParseInt` in base 10, as the program calls them.
pub mod RoundTrip
use keyp.Base.{ℕ, zero, suc, ◌+◌, ◌-◌, ◌*◌, ◌/◌, ◌%◌, ◌^◌, Option, none, some}
use keyp.Base.{List, [], ◌∷◌, ◌++◌, ◌&&◌, Bool, true, false, ltb, leb, ◌==◌, if◌then◌else◌}
use keyp.Bytes.{Bytes}
use keyp.Int64.{is_negative}

-- Twenty digits are enough for a 64-bit number.
unfoldable pub digits : ℕ → ℕ → Bytes
digits zero n = []
digits (suc fuel) n =
    if ltb n 10 then (48 + n) ∷ [] else digits fuel (n / 10) ++ ((48 + n % 10) ∷ [])

unfoldable pub format_uint : ℕ → Bytes
unfolding digits
format_uint n = digits 20 n

-- `strconv.FormatInt(value, 10)`
unfoldable pub format_int64 : ℕ → Bytes
unfolding format_uint
format_int64 w = if is_negative w then b'-' ∷ format_uint (2 ^ 64 - w) else format_uint w

-- The errors of `strconv.ParseInt`, each with the value returned beside it.
pub data Parsed : Type 0 where
  parsed : ℕ → Parsed
  bad_syntax : Parsed
  out_of_range : ℕ → Parsed

-- The value that a caller gets who ignores the error.
abbrev pub value_of : Parsed → ℕ
value_of (parsed n) = n
value_of bad_syntax = 0
value_of (out_of_range n) = n

abbrev is_digit : ℕ → Bool
is_digit c = leb b'0' c && leb c b'9'

-- The loop of `strconv.ParseUint`; the range error comes before any later syntax error.
unfoldable pub parse_digits : ℕ → Bytes → Parsed
parse_digits acc [] = parsed acc
parse_digits acc (c ∷ rest) =
    let more = parse_digits (acc * 10 + (c - b'0')) rest in
    if is_digit c
    then (if ltb (acc * 10 + (c - b'0')) (2 ^ 64) then more else out_of_range (2 ^ 64 - 1))
    else bad_syntax

pub parse_uint : Bytes → Parsed
unfolding parse_digits
parse_uint [] = bad_syntax
parse_uint (c ∷ rest) = parse_digits 0 (c ∷ rest)

-- The end of `strconv.ParseInt`: the range test, with the bound on the side of the sign.
abbrev pub signed_range : Bool → Parsed → Parsed
signed_range negative bad_syntax = bad_syntax
signed_range false (parsed n) = if ltb n (2 ^ 63) then parsed n else out_of_range (2 ^ 63 - 1)
signed_range false (out_of_range n) = out_of_range (2 ^ 63 - 1)
signed_range true (parsed n) =
    if leb n (2 ^ 63) then parsed ((2 ^ 64 - n) % 2 ^ 64) else out_of_range (2 ^ 63)
signed_range true (out_of_range n) = out_of_range (2 ^ 63)

-- `strconv.ParseInt(s, 10, 64)`
unfoldable pub parse_int64 : Bytes → Parsed
unfolding parse_uint
parse_int64 [] = bad_syntax
parse_int64 (c ∷ rest) =
    if c == b'+'
    then signed_range false (parse_uint rest)
    else if c == b'-'
    then signed_range true (parse_uint rest)
    else signed_range false (parse_uint (c ∷ rest))
