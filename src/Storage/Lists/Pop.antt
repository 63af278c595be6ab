-- ===== src/Storage/Lists/Pop.antt =====
-- lpop.go and rpop.go on a stored list.
use keyp.Base.{ℕ, suc, ◌+◌, ◌^◌, ◌<◌, ◌≡◌, refl, sym, ap, ◌∙◌, arith, false}
use keyp.Base.{List, [], ◌∷◌, ◌++◌, append_assoc, length, drop, All}
use keyp.Base.{Option, none, some, ◌==◌, if◌then◌else◌}
use keyp.Base.{length-append, drop-append}
use keyp.Bytes.{Bytes, to_le, has_room, u64_at, slice, length-to_le}
use keyp.Int64.{sub64, rounds}
use keyp.Lmdb.{ok}
use keyp.Storage.Lists.{lpop_value}
use keyp.Storage.Lists.{skip_items, pop_last, rpop_value}
use keyp.Storage.Lists.Format.{
  encode_list, items_bytes, item, IsItem, IsStorable, AreItemsAt, IsItemAt,
}
use keyp.Storage.Lists.Format.{header-encode_list, count-encode_list, items-encode_list}
use keyp.Storage.Lists.Format.{items_bytes-append, length-item, IsItemAt-append}
use keyp.Bytes.{slice-append}

-- The value that a pop leaves; a list that becomes empty is deleted.
abbrev pub left : List Bytes → Option Bytes
left [] = none
left (x ∷ xs) = some (encode_list (x ∷ xs))

-- The tests and reads of the first item.
first_item :
    (x : Bytes) (xs : List Bytes) → IsStorable (x ∷ xs) → IsItemAt (encode_list (x ∷ xs)) 8 x
first_item x xs h = (items-encode_list (x ∷ xs) h.items).0

drop_first :
    (x : Bytes) (xs : List Bytes) → drop (12 + length x) (encode_list (x ∷ xs)) ≡ items_bytes xs
unfolding encode_list items_bytes
drop_first x xs =
    let front : Bytes = to_le 8 (suc (length xs)) ++ item x in
    let size : length front ≡ 12 + length x = omega (
      arith,
      length-append (to_le 8 (suc (length xs))) (item x),
      length-to_le 8 (suc (length xs)),
      length-item x,
    ) in
    rw (sym size, sym (append_assoc (to_le 8 (suc (length xs))) (item x) (items_bytes xs)))
      (drop-append front (items_bytes xs))

pop_left :
    (xs : List Bytes)
    → suc (length xs) < 2 ^ 63
    → (if suc (length xs) == 1
        then none
        else some (to_le 8 (sub64 (suc (length xs)) 1) ++ items_bytes xs))
      ≡ left xs
pop_left [] h = refl
pop_left (y ∷ ys) h =
    let less : sub64 (suc (suc (length ys))) 1 ≡ suc (length ys) = omega arith in
    let more : (suc (suc (length ys)) == 1) ≡ false = ground arith in
    rw (more, less) (unfold encode_list in refl)

-- `LPop` answers with the first item and leaves the others.
pub lpop_value-encode_list :
    (x : Bytes) (xs : List Bytes)
    → IsStorable (x ∷ xs)
    → lpop_value (encode_list (x ∷ xs)) ≡ ok (x, left xs)
unfolding lpop_value has_room
lpop_value-encode_list x xs h =
    let at : IsItemAt (encode_list (x ∷ xs)) 8 x = first_item x xs h in
    let nonzero : (suc (length xs) == 0) ≡ false = ground arith in
    rw
      (
        header-encode_list (x ∷ xs),
        count-encode_list (x ∷ xs) (omega (arith, h.count)),
        nonzero,
        at.item_length,
        at.room_for_length,
        at.room_for_item,
        at.item_bytes,
        drop_first x xs,
        pop_left xs h.count,
      )
      refl

rounds_before_last : (n : ℕ) → suc n < 2 ^ 63 → rounds (sub64 (suc n) 1) ≡ n
rounds_before_last n h = ground arith

-- The offset of the last item.
skip_items-items :
    (bytes : Bytes) (offset : ℕ) (xs ys : List Bytes)
    → AreItemsAt bytes offset (xs ++ ys)
    → skip_items (length xs) bytes offset ≡ some (offset + length (items_bytes xs))
unfolding skip_items items_bytes
skip_items-items bytes offset [] ys h = ap some (omega arith)
skip_items-items bytes offset (x ∷ xs) ys h =
    let at : IsItemAt bytes offset x = h.0 in
    let next : offset + (4 + length x) ≡ offset + 4 + length x = omega arith in
    rw (at.item_length, at.room_for_length, next)
      (skip_items-items bytes (offset + 4 + length x) xs ys h.1
        ∙ ap some (omega (arith, length-append (item x) (items_bytes xs), length-item x)))

All-last : (xs : List Bytes) (x : Bytes) → All IsItem (xs ++ x ∷ []) → IsItem x
All-last [] x h = h.0
All-last (y ∷ ys) x h = All-last ys x h.1

module _ (xs : List Bytes) (x : Bytes) (h : IsStorable (xs ++ x ∷ [])) where
  abbrev whole : Bytes
  whole = encode_list (xs ++ x ∷ [])

  abbrev before : Bytes
  before = to_le 8 (length (xs ++ x ∷ [])) ++ items_bytes xs

  size : length (xs ++ x ∷ []) ≡ suc (length xs)
  size = omega (arith, length-append xs (x ∷ []))

  IsItem-last : IsItem x
  IsItem-last = All-last xs x h.items

  length-before : length before ≡ 8 + length (items_bytes xs)
  length-before = omega (
    arith,
    length-append (to_le 8 (length (xs ++ x ∷ []))) (items_bytes xs),
    length-to_le 8 (length (xs ++ x ∷ [])),
  )

  spread : whole ≡ to_le 8 (length (xs ++ x ∷ [])) ++ (items_bytes xs ++ (item x ++ []))
  unfolding encode_list
  spread =
      ap (λ r. to_le 8 (length (xs ++ x ∷ [])) ++ r) (items_bytes-append xs (x ∷ []))
      ∙ (unfold items_bytes in refl)

  whole-before : whole ≡ before ++ (item x ++ [])
  whole-before = spread ∙ sym (append_assoc (to_le 8 (length (xs ++ x ∷ []))) (items_bytes xs) _)

  last_item : IsItemAt whole (8 + length (items_bytes xs)) x
  last_item = rw (whole-before, sym length-before) (IsItemAt-append before x [] IsItem-last)

  slice_before : slice whole 8 (8 + length (items_bytes xs)) ≡ items_bytes xs
  slice_before =
      ap (λ r. slice r 8 (8 + length (items_bytes xs))) spread
      ∙ (rw (length-to_le 8 (length (xs ++ x ∷ []))) at
          (slice-append (to_le 8 (length (xs ++ x ∷ []))) (items_bytes xs) (item x ++ [])))

  pop_last_lem :
      pop_last whole (suc (length xs)) (8 + length (items_bytes xs)) ≡ ok (x, some (encode_list xs))
  unfolding pop_last
  pop_last_lem =
      let at : IsItemAt whole (8 + length (items_bytes xs)) x = last_item in
      let less : sub64 (suc (length xs)) 1 ≡ length xs = omega (arith, h.count, size) in
      rw (at.item_length, at.room_for_length, at.room_for_item, at.item_bytes, slice_before, less)
        (unfold encode_list in refl)

-- `RPop` answers with the last item and leaves the others.
pub rpop_value-encode_list :
    (xs : List Bytes) (x : Bytes)
    → IsStorable (xs ++ x ∷ [])
    → rpop_value (encode_list (xs ++ x ∷ [])) ≡ ok (x, left xs)
unfolding rpop_value has_room
rpop_value-encode_list [] x h =
    let at : IsItemAt (encode_list (x ∷ [])) 8 x = first_item x [] h in
    rw
      (
        header-encode_list (x ∷ []),
        count-encode_list (x ∷ []) (omega arith),
        at.item_length,
        at.room_for_length,
        at.room_for_item,
        at.item_bytes,
      )
      refl
rpop_value-encode_list (y ∷ ys) x h =
    let n : ℕ = suc (length ys) in
    let count : u64_at (encode_list (y ∷ ys ++ x ∷ [])) 0 ≡ suc n =
      count-encode_list (y ∷ ys ++ x ∷ []) (omega (arith, h.count)) ∙ size (y ∷ ys) x h in
    let nonzero : (suc n == 0) ≡ false = ground arith in
    let several : (suc n == 1) ≡ false = ground arith in
    let fits : suc n < 2 ^ 63 = omega (arith, h.count, size (y ∷ ys) x h) in
    let before_last : rounds (sub64 (suc n) 1) ≡ n = rounds_before_last n fits in
    rw
      (
        header-encode_list (y ∷ ys ++ x ∷ []),
        count,
        nonzero,
        several,
        before_last,
        skip_items-items (encode_list (y ∷ ys ++ x ∷ [])) 8 (y ∷ ys) (x ∷ [])
            (items-encode_list (y ∷ ys ++ x ∷ []) h.items),
      )
      (rw count (pop_last_lem (y ∷ ys) x h))
