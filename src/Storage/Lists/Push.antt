-- ===== src/Storage/Lists/Push.antt =====
-- lpush.go and rpush.go on a stored list.
use keyp.Base.{◌+◌, ◌^◌, ◌<◌, ◌≡◌, ◌⊎◌, refl, arith}
use keyp.Base.{List, [], ◌++◌, append_assoc, length}
use keyp.Base.{inl, inr}
use keyp.Base.{length-append, length-reverse}
use keyp.Bytes.{Bytes}
use keyp.Int64.{add64}
use keyp.Domain.{not_found}
use keyp.Lmdb.{Reply, ok, err}
use keyp.Storage.Lists.{existing_list, rpush_value, lpush_value}
use keyp.Storage.Lists.Format.{encode_list, items_bytes}
use keyp.Storage.Lists.Format.{header-encode_list, count-encode_list, drop-encode_list}
use keyp.Storage.Lists.Format.{items_bytes-append, put_items-items_bytes}
use mathlib.Core.List.{reverse}

-- What a `Get` finds where the list `xs` is stored; no key is the empty list.
abbrev pub IsStored : Reply Bytes → List Bytes → Type 0
IsStored found xs = (found ≡ ok (encode_list xs)) ⊎ ((found ≡ err not_found) × (xs ≡ []))

existing_list-IsStored :
    (found : Reply Bytes) (xs : List Bytes)
    → IsStored found xs
    → length xs < 2 ^ 63
    → existing_list found ≡ (length xs, items_bytes xs)
unfolding existing_list
existing_list-IsStored found xs (inl e) h =
    rw (e, header-encode_list xs, count-encode_list xs (omega arith), drop-encode_list xs) refl
existing_list-IsStored found xs (inr (e, no_items)) h = unfold items_bytes in rw (e, no_items) refl

-- `RPush` stores the old items followed by the values, and answers with their number.
pub rpush_value-IsStored :
    (found : Reply Bytes) (xs values : List Bytes)
    → IsStored found xs
    → length xs + length values < 2 ^ 63
    → rpush_value found values ≡ (length xs + length values, encode_list (xs ++ values))
unfolding rpush_value
rpush_value-IsStored found xs values s h =
    let sum : add64 (length xs) (length values) ≡ length xs + length values = omega arith in
    rw (existing_list-IsStored found xs s (omega arith), sum, put_items-items_bytes)
      (unfold encode_list in rw (items_bytes-append, length-append, append_assoc) refl)

-- `LPush` stores the values in reverse before the old items.
pub lpush_value-IsStored :
    (found : Reply Bytes) (xs values : List Bytes)
    → IsStored found xs
    → length xs + length values < 2 ^ 63
    → lpush_value found values ≡ (length xs + length values, encode_list (reverse values ++ xs))
unfolding lpush_value
lpush_value-IsStored found xs values s h =
    let sum : add64 (length xs) (length values) ≡ length xs + length values = omega arith in
    let count : length (reverse values ++ xs) ≡ length xs + length values =
      omega (arith, length-append (reverse values) xs, length-reverse values) in
    rw (existing_list-IsStored found xs s (omega arith), sum, put_items-items_bytes)
      (unfold encode_list in rw (items_bytes-append, count, append_assoc) refl)
