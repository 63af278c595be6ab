-- ===== src/Service/Format/Reader.antt =====
-- A reader of RESP arrays, by the protocol and not by the code, and what it makes of `format_array`.
use keyp.Base.{
  ℕ, zero, suc, ◌/◌, ◌^◌, ◌≤◌, ◌<◌, ◌≡◌, refl, sym, ap, ◌∙◌, arith, true, false, ◌&&◌, Option, none,
  some,
}
use keyp.Base.{
  List, [], ◌∷◌, ◌++◌, append_assoc, length, take, drop, All, All-append, if◌then◌else◌, ◌==◌, leb,
  ltb, Bool-cases, inl, inr, ltb→lt,
}
use keyp.Base.{take-append, drop-append, length-append, le→leb, ==_refl}
use keyp.Bytes.{Bytes, bytes_eq, bytes_eq_refl}
use keyp.Decimal.{Parsed, parsed, bad_syntax, out_of_range, digits, format_uint, parse_uint}
use keyp.Decimal.RoundTrip.{parse_uint-format_uint}
use keyp.Service.Format.{crlf, format_items, format_array}

-- The text before the first line end, and the text behind it.
after_cr : Bytes → Option (Bytes × Bytes)
after_cr [] = none
after_cr (c ∷ text) = if c == 10 then some ([], text) else none

abbrev prepend : ℕ → Option (Bytes × Bytes) → Option (Bytes × Bytes)
prepend c none = none
prepend c (some (line, text)) = some (c ∷ line, text)

split_line : Bytes → Option (Bytes × Bytes)
unfolding after_cr
split_line [] = none
split_line (c ∷ text) =
    let rest = prepend c (split_line text) in if c == 13 then after_cr text else rest

abbrev number_of : Parsed → Bytes → Option (ℕ × Bytes)
number_of (parsed n) text = some (n, text)
number_of bad_syntax text = none
number_of (out_of_range n) text = none

abbrev number_line : Option (Bytes × Bytes) → Option (ℕ × Bytes)
number_line none = none
number_line (some (line, text)) = number_of (parse_uint line) text

-- A line that starts with a mark and holds a number.
read_header : ℕ → Bytes → Option (ℕ × Bytes)
unfolding split_line
read_header mark [] = none
read_header mark (c ∷ text) = if c == mark then number_line (split_line text) else none

abbrev cut_item : Option (ℕ × Bytes) → Option (Bytes × Bytes)
cut_item none = none
cut_item (some (n, text)) =
    if leb n (length text) && bytes_eq (take 2 (drop n text)) crlf
    then some (take n text, drop 2 (drop n text))
    else none

abbrev cons_item : Bytes → Option (List Bytes × Bytes) → Option (List Bytes × Bytes)
cons_item x none = none
cons_item x (some (xs, text)) = some (x ∷ xs, text)

abbrev with_item :
    Option (Bytes × Bytes) → (Bytes → Option (List Bytes × Bytes)) → Option (List Bytes × Bytes)
with_item none k = none
with_item (some (x, text)) k = cons_item x (k text)

read_items : ℕ → Bytes → Option (List Bytes × Bytes)
unfolding read_header
read_items zero text = some ([], text)
read_items (suc n) text = with_item (cut_item (read_header b'$' text)) λ rest. read_items n rest

abbrev read_counted : Option (ℕ × Bytes) → Option (List Bytes × Bytes)
read_counted none = none
read_counted (some (n, text)) = read_items n text

-- The items of a text that is one array, and what stands behind it.
unfoldable pub read_array : Bytes → Option (List Bytes × Bytes)
unfolding read_items
read_array text = read_counted (read_header b'*' text)

digits-small : (fuel n : ℕ) → All (λ c. (48 ≤ c) × (c ≤ 57)) (digits fuel n)
unfolding digits
digits-small zero n = tt
digits-small (suc fuel) n = elim (Bool-cases (ltb n 10)) [
  | inl small ↦ rw small ((omega arith, omega (arith, ltb→lt n 10 small)), tt)
  | inr large ↦ rw large (
      All-append _ (digits fuel (n / 10)) _ (digits-small fuel (n / 10))
        ((omega arith, omega arith), tt))
]

split_line-line :
    (line text : Bytes)
    → All (λ c. (48 ≤ c) × (c ≤ 57)) line
    → split_line (line ++ (crlf ++ text)) ≡ some (line, text)
unfolding split_line after_cr
split_line-line [] text h = refl
split_line-line (c ∷ line) text h =
    let other : (c == 13) ≡ false = ground (arith, h.0.0) in
    rw (other, split_line-line line text h.1) refl

read_header-number :
    (mark n : ℕ) (text : Bytes)
    → n < 2 ^ 64
    → read_header mark (mark ∷ ((format_uint n ++ crlf) ++ text)) ≡ some (n, text)
unfolding read_header
read_header-number mark n text h =
    rw
      (
        ==_refl mark,
        append_assoc (format_uint n) crlf text,
        split_line-line (format_uint n) text (unfold format_uint in digits-small 20 n),
        parse_uint-format_uint n h,
      )
      refl

abbrev IsShort : Bytes → Type 0
IsShort x = length x < 2 ^ 64

read_items-format_items :
    (xs : List Bytes) (text : Bytes)
    → All IsShort xs
    → read_items (length xs) (format_items xs ++ text) ≡ some (xs, text)
unfolding read_items format_items
read_items-format_items [] text h = refl
read_items-format_items (x ∷ xs) text h =
    let rest : Bytes = format_items xs ++ text in
    let behind : Bytes = x ++ (crlf ++ rest) in
    let front : Bytes = format_uint (length x) ++ crlf in
    let whole : format_items (x ∷ xs) ++ text ≡ b'$' ∷ (front ++ behind) =
      ap (λ b. b'$' ∷ b)
        (append_assoc front (x ++ (crlf ++ format_items xs)) text
          ∙ ap (λ b. front ++ b) (append_assoc x (crlf ++ format_items xs) text)) in
    let long : leb (length x) (length behind) ≡ true =
      le→leb _ _ (omega (arith, length-append x (crlf ++ rest))) in
    ap (λ b. with_item (cut_item (read_header b'$' b)) λ after. read_items (length xs) after) whole
    ∙ rw
        (
          read_header-number b'$' (length x) behind h.0,
          long,
          drop-append x (crlf ++ rest),
          take-append x (crlf ++ rest),
          bytes_eq_refl crlf,
        )
        (ap (cons_item x) (read_items-format_items xs text h.1))

format_uint-zero : format_uint 0 ≡ 48 ∷ []
unfolding format_uint digits
format_uint-zero = refl

-- A reader written by the RESP protocol reads the items back from what formatArray makes of them,
-- and leaves what stands behind; the lengths are below 2 ^ 64.
pub read_array-format_array :
    (xs : List Bytes) (text : Bytes)
    → length xs < 2 ^ 64
    → All IsShort xs
    → read_array (format_array xs ++ text) ≡ some (xs, text)
unfolding read_array format_array
read_array-format_array [] text count h =
    ap (λ d. read_counted (read_header b'*' (b'*' ∷ ((d ++ crlf) ++ text)))) (sym format_uint-zero)
    ∙ ap read_counted (read_header-number b'*' 0 text (omega arith))
    ∙ unfold read_items in refl
read_array-format_array (x ∷ xs) text count h =
    let front : Bytes = format_uint (length (x ∷ xs)) ++ crlf in
    ap (λ b. read_counted (read_header b'*' (b'*' ∷ b)))
      (append_assoc front (format_items (x ∷ xs)) text)
    ∙ rw (read_header-number b'*' (length (x ∷ xs)) (format_items (x ∷ xs) ++ text) count)
        (read_items-format_items (x ∷ xs) text h)
