-- ===== src/Storage/Lists/Assign.antt =====
-- lset.go on a stored list.
use keyp.Base.{ℕ, zero, suc, ◌+◌, ◌^◌, ◌<◌, ◌≡◌, refl, sym, ap, ◌∙◌, arith, true, false}
use keyp.Base.{List, [], ◌∷◌, ◌++◌, append_assoc, append-nil, length, set}
use keyp.Base.{ltb, ◌==◌, if◌then◌else◌, inl, inr, lt→leb_false}
use keyp.Base.{length-set, lt→ltb, le→ltb_false}
use keyp.Bytes.{Bytes, to_le}
use keyp.Int64.{ℤ, of_ℤ, InRange}
use keyp.Domain.{key_not_found}
use keyp.Lmdb.{ok, err}
use keyp.Storage.Lists.{put_item}
use keyp.Storage.Lists.{set_loop, lset_value}
use keyp.Storage.Lists.Format.{encode_list, items_bytes, item, IsStorable, AreItemsAt, IsItemAt}
use keyp.Storage.Lists.Format.{header-encode_list, count-encode_list, items-encode_list}
use keyp.Storage.Lists.Index.{place, position_cases}

-- Behind the item that is replaced every item is copied.
set_loop_after :
    (i index : ℕ) (value bytes : Bytes) (offset : ℕ) (xs : List Bytes) (out : Bytes)
    → AreItemsAt bytes offset xs
    → index < i
    → set_loop (length xs) i index value bytes offset out ≡ ok (out ++ items_bytes xs)
unfolding set_loop items_bytes item
set_loop_after i index value bytes offset [] out h after = ap ok (sym (append-nil out))
set_loop_after i index value bytes offset (x ∷ xs) out h after =
    let at : IsItemAt bytes offset x = h.0 in
    let other : (i == index) ≡ false = ground arith in
    rw (other, at.item_length, at.room_for_length, at.room_for_item, at.item_bytes)
      (set_loop_after (i + 1) index value bytes (offset + 4 + length x) xs (out ++ item x) h.1
          (omega arith)
        ∙ ap ok (append_assoc out (item x) (items_bytes xs)))

set_loop-items :
    (d i : ℕ) (value bytes : Bytes) (offset : ℕ) (xs : List Bytes) (out : Bytes)
    → AreItemsAt bytes offset xs
    → set_loop (length xs) i (i + d) value bytes offset out
      ≡ ok (out ++ items_bytes (set xs d value))
unfolding set_loop items_bytes item
set_loop-items d i value bytes offset [] out h = ap ok (sym (append-nil out))
set_loop-items zero i value bytes offset (x ∷ xs) out h =
    let at : IsItemAt bytes offset x = h.0 in
    let here : (i == i + 0) ≡ true = ground arith in
    rw (here, at.item_length, at.room_for_length)
      (set_loop_after (i + 1) (i + 0) value bytes (offset + 4 + length x) xs (put_item out value)
          h.1 (omega arith)
        ∙ ap ok (append_assoc out (item value) (items_bytes xs)))
set_loop-items (suc d) i value bytes offset (x ∷ xs) out h =
    let at : IsItemAt bytes offset x = h.0 in
    let other : (i == i + suc d) ≡ false = ground arith in
    let shift : i + suc d ≡ i + 1 + d = omega arith in
    rw (other, at.item_length, at.room_for_length, at.room_for_item, at.item_bytes, shift)
      (set_loop-items d (i + 1) value bytes (offset + 4 + length x) xs (out ++ item x) h.1
        ∙ ap ok (append_assoc out (item x) (items_bytes (set xs d value))))

-- `LSet` replaces the item that the index names, and fails when it names none.
pub lset_value-encode_list :
    (xs : List Bytes) (z : ℤ) (value : Bytes)
    → IsStorable xs
    → InRange z
    → lset_value (encode_list xs) (of_ℤ z) value ≡ (
        if ltb (place (length xs) z) (length xs)
        then ok (encode_list (set xs (place (length xs) z) value))
        else err key_not_found)
unfolding lset_value
lset_value-encode_list xs z value h hz =
    let n : ℕ = length xs in
    let p : ℕ = place n z in
    rw
      (
        header-encode_list xs,
        count-encode_list xs (omega (arith, h.count)),
        lt→leb_false (2 ^ 63) n h.count,
      )
      (elim (position_cases n z h.count hz) [
        | inl (inside, at, less) ↦
            rw (inside, at, lt→ltb p n less)
              ((let e : 0 + p ≡ p = omega arith in
                  rw e at (
                    set_loop-items p 0 value (encode_list xs) 8 xs (to_le 8 n)
                      (items-encode_list xs h.items)))
                ∙ ap ok (unfold encode_list in rw (length-set xs p value) refl))
        | inr (outside, past) ↦ rw (outside, past, le→ltb_false n n (omega arith)) refl
      ])
