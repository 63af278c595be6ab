-- ===== src/Storage/Lists/Range.antt =====
-- lrange.go against the part of a list that its two bounds name.
use keyp.Base.{ℕ, suc, ◌+◌, ◌-◌, ◌^◌, ◌<◌, ◌≡◌, refl, sym, ap, ◌∙◌, arith, false}
use keyp.Base.{
  List, [], ◌∷◌, ◌++◌, append_assoc, append-nil, length, take, drop, lt→leb_false, take-nil, ◌==◌,
  drop-nil,
}
use keyp.Base.{Bool-cases, inl, inr}
use keyp.Bytes.{Bytes}
use keyp.Int64.{ℤ, of_ℤ, InRange}
use keyp.Lmdb.{ok}
use keyp.Storage.Lists.{range_loop, lrange_value}
use keyp.Storage.Lists.Format.{encode_list, IsStorable, AreItemsAt, IsItemAt, header-encode_list}
use keyp.Storage.Lists.Format.{count-encode_list, items-encode_list}
unfoldable use keyp.Storage.Lists.Bounds.{select}
use keyp.Storage.Lists.Bounds.{within, is_selected_small, select_from_zero, range, clamped_range}

range_loop-items :
    (i low high : ℕ) (bytes : Bytes) (offset : ℕ) (xs taken : List Bytes)
    → AreItemsAt bytes offset xs
    → i + length xs < 2 ^ 63
    → low < 2 ^ 63
    → high < 2 ^ 63
    → range_loop (length xs) i low high bytes offset taken ≡ ok (taken ++ select i low high xs)
unfolding range_loop select
range_loop-items i low high bytes offset [] taken h bi bl bh = ap ok (sym (append-nil taken))
range_loop-items i low high bytes offset (x ∷ xs) taken h bi bl bh =
    let at : IsItemAt bytes offset x = h.0 in
    rw
      (
        is_selected_small low high i bl bh (omega arith),
        at.item_length,
        at.room_for_length,
        at.room_for_item,
        at.item_bytes,
      )
      (elim (Bool-cases (within low high i)) [
        | inl inside ↦ rw inside (
            range_loop-items (i + 1) low high bytes (offset + 4 + length x) xs (taken ++ (x ∷ []))
              h.1 (omega arith) bl bh
            ∙ ap ok (append_assoc taken (x ∷ []) _))
        | inr outside ↦ rw outside (
            range_loop-items (i + 1) low high bytes (offset + 4 + length x) xs taken h.1
              (omega arith) bl bh)
      ])

-- The closure's answer once the header is read, for a list that is not empty.
range_loop_from_header :
    (xs : List Bytes) (low high : ℕ)
    → IsStorable xs
    → low < 2 ^ 63
    → high < 2 ^ 63
    → range_loop (length xs) 0 low high (encode_list xs) 8 []
      ≡ ok (take (suc high - low) (drop low xs))
range_loop_from_header xs low high h bl bh =
    range_loop-items 0 low high (encode_list xs) 8 xs [] (items-encode_list xs h.items)
      (omega (arith, h.count)) bl bh
    ∙ ap ok (select_from_zero low high xs)

lrange_nonempty :
    (xs : List Bytes) (start stop : ℤ)
    → 0 < length xs
    → IsStorable xs
    → InRange start
    → InRange stop
    → lrange_value (encode_list xs) (of_ℤ start) (of_ℤ stop) ≡ ok (range xs start stop)
unfolding lrange_value
lrange_nonempty xs start stop h0 h hs he =
    let nonzero : (length xs == 0) ≡ false = ground arith in
    rw
      (
        header-encode_list xs,
        count-encode_list xs (omega (arith, h.count)),
        nonzero,
        lt→leb_false (2 ^ 63) (length xs) (omega (arith, h.count)),
      )
      (clamped_range ok (λ low high. range_loop (length xs) 0 low high (encode_list xs) 8 []) xs
        start stop h0 h.count hs he (λ low high. range_loop_from_header xs low high h))

pub lrange_value-encode_list :
    (xs : List Bytes) (start stop : ℤ)
    → IsStorable xs
    → InRange start
    → InRange stop
    → lrange_value (encode_list xs) (of_ℤ start) (of_ℤ stop) ≡ ok (range xs start stop)
lrange_value-encode_list [] start stop h hs he =
    unfold lrange_value range in
    rw (header-encode_list [], count-encode_list [] (omega arith), drop-nil, take-nil) refl
lrange_value-encode_list (x ∷ xs) start stop h hs he =
    lrange_nonempty (x ∷ xs) start stop (omega arith) h hs he
