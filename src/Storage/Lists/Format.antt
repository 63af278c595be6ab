-- ===== src/Storage/Lists/Format.antt =====
-- A stored list as the bytes that the pushes build: the encoding, and what stands at each offset.
use keyp.Base.{ℕ, ◌+◌, ◌^◌, ◌<◌, ◌≡◌, refl, sym, ap, ◌∙◌, arith, true}
use keyp.Base.{
  List, [], ◌∷◌, ◌++◌, append_assoc, append-nil, length, drop, length-append, All, le→leb,
  drop-append,
}
use keyp.Bytes.{Bytes, to_le, has_room, u32_at, u64_at, slice, length-to_le, u32_at-append}
use keyp.Bytes.{u64_at-append, slice-append}
use mathlib.Core.Path.{subst₂}
use keyp.Storage.Lists.{put_items, has_header}

abbrev pub IsItem : Bytes → Type 0
IsItem x = length x < 2 ^ 32

-- A list that the format holds: fewer than 2 ^ 63 items, each with a length of four bytes.
pub record IsStorable (xs : List Bytes) : Type 0 where
  pub count : length xs < 2 ^ 63
  pub items : All IsItem xs

unfoldable pub item : Bytes → Bytes
item x = to_le 4 (length x) ++ x

unfoldable pub items_bytes : List Bytes → Bytes
items_bytes [] = []
items_bytes (x ∷ xs) = item x ++ items_bytes xs

unfoldable pub encode_list : List Bytes → Bytes
unfolding items_bytes item
encode_list xs = to_le 8 (length xs) ++ items_bytes xs

-- What the loops read at an offset where the item `x` stands.
pub record IsItemAt (bytes : Bytes) (offset : ℕ) (x : Bytes) : Type 0 where
  pub room_for_length : has_room bytes offset 4 ≡ true
  pub item_length : u32_at bytes offset ≡ length x
  pub room_for_item : has_room bytes (offset + 4) (length x) ≡ true
  pub item_bytes : slice bytes (offset + 4) (offset + 4 + length x) ≡ x

abbrev pub AreItemsAt : Bytes → ℕ → List Bytes → Type 0
AreItemsAt bytes offset [] = Unit
AreItemsAt bytes offset (x ∷ xs) =
    IsItemAt bytes offset x × AreItemsAt bytes (offset + 4 + length x) xs

pub length-item : (x : Bytes) → length (item x) ≡ 4 + length x
unfolding item
length-item x = omega (arith, length-append (to_le 4 (length x)) x, length-to_le 4 (length x))

pub IsItemAt-append :
    (front x rest : Bytes) → IsItem x → IsItemAt (front ++ (item x ++ rest)) (length front) x
IsItemAt-append front x rest h =
    let n : ℕ = length x in
    let whole : Bytes = front ++ (item x ++ rest) in
    let by_length : whole ≡ front ++ (to_le 4 n ++ (x ++ rest)) =
      unfold item in ap (λ r. front ++ r) (append_assoc (to_le 4 n) x rest) in
    let by_item : whole ≡ (front ++ to_le 4 n) ++ (x ++ rest) =
      by_length ∙ sym (append_assoc front (to_le 4 n) (x ++ rest)) in
    let start : length (front ++ to_le 4 n) ≡ length front + 4 =
      omega (arith, length-append front (to_le 4 n), length-to_le 4 n) in
    let size : length whole ≡ length front + (4 + n + length rest) =
      omega
        (arith, length-append front (item x ++ rest), length-append (item x) rest, length-item x) in
    record {
      room_for_length = unfold has_room in rw size (le→leb _ _ (omega arith));
      item_length = rw by_length (u32_at-append front n (x ++ rest) h);
      room_for_item = unfold has_room in rw size (le→leb _ _ (omega arith));
      item_bytes = rw (by_item, sym start) (slice-append (front ++ to_le 4 n) x rest);
    }

pub AreItemsAt-append :
    (front : Bytes) (xs : List Bytes)
    → All IsItem xs
    → AreItemsAt (front ++ items_bytes xs) (length front) xs
unfolding items_bytes
AreItemsAt-append front [] h = tt
AreItemsAt-append front (x ∷ xs) h =
    let offset : length (front ++ item x) ≡ length front + 4 + length x =
      omega (arith, length-append front (item x), length-item x) in
    (
      IsItemAt-append front x (items_bytes xs) h.0,
      subst₂ (λ bytes at. AreItemsAt bytes at xs) (append_assoc front (item x) (items_bytes xs))
          offset (AreItemsAt-append (front ++ item x) xs h.1),
    )

pub items_bytes-append :
    (xs ys : List Bytes) → items_bytes (xs ++ ys) ≡ items_bytes xs ++ items_bytes ys
unfolding items_bytes
items_bytes-append [] ys = refl
items_bytes-append (x ∷ xs) ys = rw (items_bytes-append xs ys) (sym (append_assoc (item x) _ _))

pub put_items-items_bytes :
    (front : Bytes) (xs : List Bytes) → put_items front xs ≡ front ++ items_bytes xs
unfolding put_items items_bytes item
put_items-items_bytes front [] = sym (append-nil front)
put_items-items_bytes front (x ∷ xs) =
    put_items-items_bytes (front ++ item x) xs ∙ append_assoc front (item x) _

-- What every closure reads first: the header and the count.
pub length-encode_list : (xs : List Bytes) → length (encode_list xs) ≡ 8 + length (items_bytes xs)
unfolding encode_list
length-encode_list xs =
    omega (arith, length-append (to_le 8 (length xs)) (items_bytes xs), length-to_le 8 (length xs))

pub header-encode_list : (xs : List Bytes) → has_header (encode_list xs) ≡ true
header-encode_list xs = le→leb _ _ (omega (arith, length-encode_list xs))

pub count-encode_list :
    (xs : List Bytes) → length xs < 2 ^ 64 → u64_at (encode_list xs) 0 ≡ length xs
unfolding encode_list
count-encode_list xs h = u64_at-append [] (length xs) (items_bytes xs) h

pub drop-encode_list : (xs : List Bytes) → drop 8 (encode_list xs) ≡ items_bytes xs
unfolding encode_list
drop-encode_list xs =
    ap (λ k. drop k (to_le 8 (length xs) ++ items_bytes xs)) (sym (length-to_le 8 (length xs)))
    ∙ drop-append (to_le 8 (length xs)) (items_bytes xs)

pub items-encode_list : (xs : List Bytes) → All IsItem xs → AreItemsAt (encode_list xs) 8 xs
unfolding encode_list
items-encode_list xs h =
    rw (length-to_le 8 (length xs)) at (AreItemsAt-append (to_le 8 (length xs)) xs h)
