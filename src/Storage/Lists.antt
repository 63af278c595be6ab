-- ===== src/Storage/Lists.antt =====
-- The bytes of a stored list, and what the closures of lpush.go, rpush.go, lpop.go, rpop.go,
-- lindex.go, lrange.go, lset.go and llen.go do with them. A list is a header of eight bytes, the
-- count, and for each item its length in four bytes and its bytes.
pub mod Format
pub mod Index
pub mod Bounds
pub mod Range
pub mod Push
pub mod Pop
pub mod Assign
pub mod Check
use keyp.Base.{ℕ, zero, suc, ◌+◌, ◌-◌, ◌^◌, Bool, true, false, not, ◌&&◌, ◌||◌, Option, none, some}
use keyp.Base.{List, [], ◌∷◌, ◌++◌, leb, ltb, ◌==◌, if◌then◌else◌, length, drop}
use keyp.Bytes.{Bytes, to_le, has_room, u32_at, u64_at, slice}
use keyp.Int64.{is_negative, add64, sub64, lt64, le64, rounds}
use keyp.Domain.{Error, key_not_found}
use keyp.Lmdb.{Reply, ok, err}
use mathlib.Core.List.{reverse}

-- `len(data) >= listHeaderSize`
abbrev pub has_header : Bytes → Bool
has_header bytes = leb 8 (length bytes)

-- `isIndexOutOfBounds`
abbrev pub out_of_bounds : ℕ → ℕ → Bool
out_of_bounds index len = is_negative index || le64 len index

-- The appends of one item: four bytes of room, the length put there, the item.
abbrev pub put_item : Bytes → Bytes → Bytes
put_item bytes value = bytes ++ (to_le 4 (length value) ++ value)

-- `for _, value := range values`
unfoldable pub put_items : Bytes → List Bytes → Bytes
put_items bytes [] = bytes
put_items bytes (value ∷ values) = put_items (put_item bytes value) values

-- The count and the items' bytes that a push finds; a missing or short value counts as empty.
unfoldable pub existing_list : Reply Bytes → ℕ × Bytes
existing_list (err e) = (0, [])
existing_list (ok bytes) = if has_header bytes then (u64_at bytes 0, drop 8 bytes) else (0, [])

-- The closures of `RPush` and `LPush`: the new length and the new value. `LPush` goes through the
-- values from the last one down.
unfoldable pub rpush_value : Reply Bytes → List Bytes → ℕ × Bytes
rpush_value found values =
    let (current, existing) = existing_list found in
    let new_length = add64 current (length values) in
    (new_length, put_items (to_le 8 new_length ++ existing) values)

unfoldable pub lpush_value : Reply Bytes → List Bytes → ℕ × Bytes
lpush_value found values =
    let (current, existing) = existing_list found in
    let new_length = add64 current (length values) in
    (new_length, put_items (to_le 8 new_length) (reverse values) ++ existing)

-- What a pop takes, with the value that is left; `none` when the key is deleted.
unfoldable pub lpop_value : Bytes → Reply (Bytes × Option Bytes)
lpop_value bytes =
    let len = u64_at bytes 0 in
    let item_len = u32_at bytes 8 in
    let rest : Option Bytes = some (to_le 8 (sub64 len 1) ++ drop (12 + item_len) bytes) in
    if not (has_header bytes) || len == 0
    then err key_not_found
    else if not (leb 12 (length bytes)) || not (leb (12 + item_len) (length bytes))
    then err key_not_found
    else ok (slice bytes 12 (12 + item_len), if len == 1 then none else rest)

-- The loop of `RPop` over the items before the last one, to the offset of the last.
unfoldable pub skip_items : ℕ → Bytes → ℕ → Option ℕ
skip_items zero bytes offset = some offset
skip_items (suc n) bytes offset =
    let rest = skip_items n bytes (offset + (4 + u32_at bytes offset)) in
    if has_room bytes offset 4 then rest else none

-- `RPop` from the offset of the last item.
unfoldable pub pop_last : Bytes → ℕ → ℕ → Reply (Bytes × Option Bytes)
pop_last bytes len offset =
    let item_len = u32_at bytes offset in
    if not (has_room bytes offset 4) || not (has_room bytes (offset + 4) item_len)
    then err key_not_found
    else ok (
      slice bytes (offset + 4) (offset + 4 + item_len),
      some (to_le 8 (sub64 len 1) ++ slice bytes 8 offset),
    )

unfoldable pub rpop_value : Bytes → Reply (Bytes × Option Bytes)
rpop_value bytes =
    let len = u64_at bytes 0 in
    let item_len = u32_at bytes 8 in
    if not (has_header bytes) || len == 0
    then err key_not_found
    else if len == 1
    then (if not (leb 12 (length bytes)) || not (leb (12 + item_len) (length bytes))
        then err key_not_found
        else ok (slice bytes 12 (12 + item_len), none))
    else elim (skip_items (rounds (sub64 len 1)) bytes 8) [
      | none ↦ err key_not_found
      | some offset ↦ pop_last bytes len offset
    ]

-- The loop of `LIndex`; the number is how many items are still passed over.
unfoldable pub index_loop : ℕ → Bytes → ℕ → Reply Bytes
index_loop zero bytes offset =
    let item_len = u32_at bytes offset in
    if not (has_room bytes offset 4) || not (has_room bytes (offset + 4) item_len)
    then err key_not_found
    else ok (slice bytes (offset + 4) (offset + 4 + item_len))
index_loop (suc n) bytes offset =
    let rest = index_loop n bytes (offset + 4 + u32_at bytes offset) in
    if has_room bytes offset 4 then rest else err key_not_found

-- A negative index counts from the end.
abbrev pub from_end : ℕ → ℕ → ℕ
from_end index len = if is_negative index then add64 len index else index

unfoldable pub lindex_value : Bytes → ℕ → Reply Bytes
lindex_value bytes index =
    let len = u64_at bytes 0 in
    let position = from_end index len in
    let found = index_loop position bytes 8 in
    if not (has_header bytes)
    then err key_not_found
    else if out_of_bounds position len
    then err key_not_found
    else found

-- `i >= start && i <= stop`
unfoldable pub is_selected : ℕ → ℕ → ℕ → Bool
is_selected start stop i = le64 start i && le64 i stop

-- The loop of `LRange`: the rounds left, `i`, the offset and the items taken so far.
unfoldable pub range_loop : ℕ → ℕ → ℕ → ℕ → Bytes → ℕ → List Bytes → Reply (List Bytes)
range_loop zero i start stop bytes offset taken = ok taken
range_loop (suc n) i start stop bytes offset taken =
    let item_len = u32_at bytes offset in
    let selected = is_selected start stop i in
    let item = slice bytes (offset + 4) (offset + 4 + item_len) in
    let rest =
      range_loop n (i + 1) start stop bytes (offset + 4 + item_len)
        (if selected then taken ++ (item ∷ []) else taken) in
    if not (has_room bytes offset 4)
    then err key_not_found
    else if selected && not (has_room bytes (offset + 4) item_len)
    then err key_not_found
    else rest

-- The adjustments of `LRange` to its two bounds.
unfoldable pub clamp_start : ℕ → ℕ → ℕ
clamp_start start len =
    let position = from_end start len in if is_negative position then 0 else position

unfoldable pub clamp_stop : ℕ → ℕ → ℕ
clamp_stop stop len =
    let position = from_end stop len in if le64 len position then sub64 len 1 else position

unfoldable pub lrange_value : Bytes → ℕ → ℕ → Reply (List Bytes)
lrange_value bytes start stop =
    let len = u64_at bytes 0 in
    let low = clamp_start start len in
    let high = clamp_stop stop len in
    let taken = range_loop (rounds len) 0 low high bytes 8 [] in
    if not (has_header bytes) || len == 0 then ok [] else if lt64 high low then ok [] else taken

-- The loop of `LSet`, which copies every item but the one at `index`.
unfoldable pub set_loop : ℕ → ℕ → ℕ → Bytes → Bytes → ℕ → Bytes → Reply Bytes
set_loop zero i index value bytes offset out = ok out
set_loop (suc n) i index value bytes offset out =
    let item_len = u32_at bytes offset in
    let item = slice bytes (offset + 4) (offset + 4 + item_len) in
    let rest =
      set_loop n (i + 1) index value bytes (offset + 4 + item_len)
        (if i == index then put_item out value else out ++ (to_le 4 item_len ++ item)) in
    if not (has_room bytes offset 4)
    then err key_not_found
    else if not (i == index) && not (has_room bytes (offset + 4) item_len)
    then err key_not_found
    else rest

unfoldable pub lset_value : Bytes → ℕ → Bytes → Reply Bytes
lset_value bytes index value =
    let len = u64_at bytes 0 in
    let position = from_end index len in
    let copied = set_loop (rounds len) 0 position value bytes 8 (to_le 8 len) in
    if not (has_header bytes)
    then err key_not_found
    else if out_of_bounds position len
    then err key_not_found
    else copied

-- The closure of `LLen`.
unfoldable pub llen_value : Bytes → ℕ
llen_value bytes = if has_header bytes then u64_at bytes 0 else 0

-- `isListData`: the loop's expected size and offset, or `none` when an item does not fit.
unfoldable pub list_data_loop : ℕ → Bytes → ℕ → ℕ → Option (ℕ × ℕ)
list_data_loop zero bytes expected offset = some (expected, offset)
list_data_loop (suc n) bytes expected offset =
    let item_len = u32_at bytes offset in
    let rest = list_data_loop n bytes (expected + (4 + item_len)) (offset + 4 + item_len) in
    if not (has_room bytes offset 4)
    then none
    else if not (has_room bytes (offset + 4) item_len)
    then none
    else rest

unfoldable pub is_list_data : Bytes → Bool
is_list_data bytes =
    let len = u64_at bytes 0 in
    if not (has_header bytes) || is_negative len
    then false
    else elim (list_data_loop len bytes 8 8) [
      | none ↦ false
      | some (expected, offset) ↦ expected == length bytes
    ]
