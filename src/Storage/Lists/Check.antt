-- ===== src/Storage/Lists/Check.antt =====
-- `isListData` of utils.go against the encoding of a list.
use keyp.Base.{ℕ, zero, suc, ◌+◌, ◌^◌, ◌≤◌, ◌<◌, ◌≡◌, refl, sym, ap, ◌∙◌, arith, true}
use keyp.Base.{List, [], ◌∷◌, ◌++◌, append_assoc, append-nil, length, take, drop, All}
use keyp.Base.{some, inl, inr, lt→leb_false}
use keyp.Base.{==_refl, Option-cases}
use keyp.Bytes.{Bytes, IsByte, to_le, from_le-lt, to_le-from_le}
unfoldable use keyp.Bytes.{has_room, u32_at, u64_at}
use keyp.Storage.Lists.{list_data_loop, is_list_data}
use keyp.Base.{
  length-take, length-drop, All-take, All-drop, take-append-drop, drop-drop, drop_all,
  length-append, ◌↔◌,
}
use mathlib.Core.Path.{ap₂, subst, ◌≡⟨◌⟩◌, ◌∎}
use keyp.Storage.Lists.Format.{
  encode_list, items_bytes, item, IsItem, IsStorable, AreItemsAt, IsItemAt,
}
use keyp.Storage.Lists.Format.{
  header-encode_list, count-encode_list, items-encode_list, length-item,
}
use keyp.Storage.Lists.Format.{length-encode_list}

list_data_loop-items :
    (bytes : Bytes) (offset : ℕ) (xs : List Bytes)
    → AreItemsAt bytes offset xs
    → list_data_loop (length xs) bytes offset offset
      ≡ some (offset + length (items_bytes xs), offset + length (items_bytes xs))
unfolding list_data_loop items_bytes
list_data_loop-items bytes offset [] h =
    ap some (let e : offset ≡ offset + 0 = omega arith in rw (sym e) refl)
list_data_loop-items bytes offset (x ∷ xs) h =
    let at : IsItemAt bytes offset x = h.0 in
    let next : offset + (4 + length x) ≡ offset + 4 + length x = omega arith in
    let end : offset + 4 + length x + length (items_bytes xs)
        ≡ offset + length (item x ++ items_bytes xs) =
      omega (arith, length-append (item x) (items_bytes xs), length-item x) in
    rw (at.item_length, at.room_for_length, at.room_for_item, next, sym end)
      (list_data_loop-items bytes (offset + 4 + length x) xs h.1)

-- A stored list passes the type check.
pub is_list_data-encode_list :
    (xs : List Bytes) → IsStorable xs → is_list_data (encode_list xs) ≡ true
unfolding is_list_data
is_list_data-encode_list xs h =
    rw
      (
        header-encode_list xs,
        count-encode_list xs (omega (arith, h.count)),
        lt→leb_false (2 ^ 63) (length xs) h.count,
        list_data_loop-items (encode_list xs) 8 xs (items-encode_list xs h.items),
        length-encode_list xs,
      )
      (==_refl (8 + length (items_bytes xs)))

module _ (bytes : Bytes) (offset : ℕ) (hb : All IsByte bytes) where
  abbrev at_offset : Bytes
  at_offset = drop offset bytes

  abbrev next : ℕ
  next = offset + 4 + u32_at bytes offset

  -- The four bytes are the length, as `to_le` writes it.
  length_bytes : offset + 4 ≤ length bytes → take 4 at_offset ≡ to_le 4 (u32_at bytes offset)
  unfolding u32_at
  length_bytes h =
      let four : length (take 4 at_offset) ≡ 4 =
        omega (arith, length-take 4 at_offset, length-drop offset bytes) in
      sym (
        rw four at (
          to_le-from_le (take 4 at_offset)
            (All-take IsByte 4 at_offset (All-drop IsByte offset bytes hb))))

  u32_at-lt : offset + 4 ≤ length bytes → u32_at bytes offset < 2 ^ 32
  unfolding u32_at
  u32_at-lt h =
      let four : length (take 4 at_offset) ≡ 4 =
        omega (arith, length-take 4 at_offset, length-drop offset bytes) in
      rw four at (
        from_le-lt (take 4 at_offset)
          (All-take IsByte 4 at_offset (All-drop IsByte offset bytes hb)))

  -- Where both bounds tests pass, an item stands at the offset.
  item_at :
      offset + 4 ≤ length bytes
      → next ≤ length bytes
      → (x : Bytes) × (length x ≡ u32_at bytes offset)
        × IsItem x
        × (at_offset ≡ item x ++ drop next bytes)
  unfolding item
  item_at room fits =
      let x : Bytes = take (u32_at bytes offset) (drop (offset + 4) bytes) in
      let size : length x ≡ u32_at bytes offset = omega (
        arith,
        length-take (u32_at bytes offset) (drop (offset + 4) bytes),
        length-drop (offset + 4) bytes,
      ) in
      (
        x,
        size,
        rw size (u32_at-lt room),
        (at_offset
            ≡⟨ sym (take-append-drop 4 at_offset) ⟩ take 4 at_offset ++ drop 4 at_offset
            ≡⟨ ap₂ (λ a b. a ++ b) (length_bytes room) (drop-drop 4 offset bytes) ⟩
              to_le 4 (u32_at bytes offset) ++ drop (offset + 4) bytes
            ≡⟨ ap (λ r. to_le 4 (u32_at bytes offset) ++ r)
                (sym (take-append-drop (u32_at bytes offset) (drop (offset + 4) bytes))) ⟩
              to_le 4 (u32_at bytes offset)
              ++ (x ++ drop (u32_at bytes offset) (drop (offset + 4) bytes))
            ≡⟨ ap₂ (λ k r. to_le 4 k ++ (x ++ r)) (sym size)
                (drop-drop (u32_at bytes offset) (offset + 4) bytes) ⟩
              to_le 4 (length x) ++ (x ++ drop next bytes)
            ≡⟨ sym (append_assoc (to_le 4 (length x)) x (drop next bytes)) ⟩
              item x ++ drop next bytes ∎),
      )

-- An accepted run reads items off the bytes, up to the offset that it returns.
list_data_loop_reads :
    (n : ℕ) (bytes : Bytes) (expected offset e o : ℕ)
    → All IsByte bytes
    → list_data_loop n bytes expected offset ≡ some (e, o)
    → (xs : List Bytes) × (length xs ≡ n)
      × All IsItem xs
      × (drop offset bytes ≡ items_bytes xs ++ drop o bytes)
      × (o ≡ offset + length (items_bytes xs))
      × (e ≡ expected + length (items_bytes xs))
unfolding list_data_loop items_bytes
list_data_loop_reads zero bytes expected offset e o hb h =
    ([], refl, tt, ground arith, ground arith, ground arith)
list_data_loop_reads (suc n) bytes expected offset e o hb h =
    let room : offset + 4 ≤ length bytes = unfold has_room in ground arith in
    let fits : next bytes offset hb ≤ length bytes = unfold has_room in ground arith in
    let (x, size, small, here) = item_at bytes offset hb room fits in
    let (xs, count, items, rest, end, sum) =
      list_data_loop_reads n bytes (expected + (4 + u32_at bytes offset)) (next bytes offset hb) e o
        hb (ground arith) in
    (
      x ∷ xs,
      ap suc count,
      (small, items),
      here ∙ ap (λ r. item x ++ r) rest ∙ sym (append_assoc (item x) (items_bytes xs) _),
      omega (arith, length-append (item x) (items_bytes xs), length-item x),
      omega (arith, length-append (item x) (items_bytes xs), length-item x),
    )

-- The header holds the count, as `to_le` writes it.
header_bytes :
    (bytes : Bytes) → All IsByte bytes → 8 ≤ length bytes → take 8 bytes ≡ to_le 8 (u64_at bytes 0)
unfolding u64_at
header_bytes bytes hb h =
    let eight : length (take 8 bytes) ≡ 8 = omega (arith, length-take 8 bytes) in
    sym (rw eight at (to_le-from_le (take 8 bytes) (All-take IsByte 8 bytes hb)))

-- What the tests of `isListData` say of accepted bytes.
accepted :
    (bytes : Bytes)
    → is_list_data bytes ≡ true
    → (8 ≤ length bytes)
      × (u64_at bytes 0 < 2 ^ 63)
      × (e : ℕ) × (o : ℕ) × (list_data_loop (u64_at bytes 0) bytes 8 8 ≡ some (e, o))
      × (e ≡ length bytes)
unfolding is_list_data
accepted bytes h = elim (Option-cases (list_data_loop (u64_at bytes 0) bytes 8 8)) [
  | inl failed ↦ absurd (ground arith)
  | inr ((e, o), run) ↦ (ground arith, ground arith, e, o, run, ground arith)
]

decode :
    (bytes : Bytes)
    → All IsByte bytes
    → is_list_data bytes ≡ true
    → (xs : List Bytes) × IsStorable xs × (bytes ≡ encode_list xs)
unfolding encode_list
decode bytes hb h =
    let (header, count, e, o, run, all) = accepted bytes h in
    let (xs, size, items, rest, end, sum) =
      list_data_loop_reads (u64_at bytes 0) bytes 8 8 e o hb run in
    let nothing : drop o bytes ≡ [] = drop_all o bytes (omega arith) in
    (
      xs,
      record { count = omega arith; items = items },
      sym (take-append-drop 8 bytes)
          ∙ ap₂ (λ a b. a ++ b) (header_bytes bytes hb header ∙ ap (to_le 8) (sym size))
              (rest ∙ rw nothing (append-nil _)),
    )

-- A slice of bytes passes isListData exactly when it is the encoding of a storable list.
pub is_list_data_iff :
    (bytes : Bytes)
    → All IsByte bytes
    → (is_list_data bytes ≡ true) ↔ ((xs : List Bytes) × IsStorable xs × (bytes ≡ encode_list xs))
is_list_data_iff bytes hb = (
  decode bytes hb,
  λ stored.
      subst (λ b. is_list_data b ≡ true) (sym stored.2)
        (is_list_data-encode_list stored.0 stored.1),
)
