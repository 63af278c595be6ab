-- ===== src/Storage/Lists/Index.antt =====
-- lindex.go and llen.go on a stored list.
use keyp.Base.{ℕ, zero, suc, ◌+◌, ◌-◌, ◌^◌, ◌<◌, ◌≡◌, refl, arith, true, false}
use keyp.Base.{List, [], ◌∷◌, length, get_elem?, ◌⊎◌}
use keyp.Base.{Option, none, some, ltb, if◌then◌else◌, inl, inr}
use keyp.Bytes.{Bytes}
use keyp.Int64.{ℤ, pos, negsuc, of_ℤ, InRange}
use keyp.Domain.{key_not_found}
use keyp.Lmdb.{Reply, ok, err}
use keyp.Storage.Lists.{index_loop, lindex_value, llen_value, from_end}
use keyp.Storage.Lists.{out_of_bounds}
use keyp.Storage.Lists.Format.{encode_list, IsStorable, AreItemsAt, IsItemAt, header-encode_list}
use keyp.Storage.Lists.Format.{count-encode_list, items-encode_list}

-- The position that an index names in a list of `n` items, from the end when it is negative; `n`
-- when it names none.
abbrev pub place : ℕ → ℤ → ℕ
place n (pos i) = if ltb i n then i else n
place n (negsuc i) = if ltb i n then n - suc i else n

abbrev pub found_or_missing : Option Bytes → Reply Bytes
found_or_missing none = err key_not_found
found_or_missing (some x) = ok x

index_loop-items :
    (n : ℕ) (bytes : Bytes) (offset : ℕ) (xs : List Bytes)
    → AreItemsAt bytes offset xs
    → n < length xs
    → index_loop n bytes offset ≡ found_or_missing (get_elem? xs n)
unfolding index_loop
index_loop-items n bytes offset [] h less = absurd (omega arith)
index_loop-items zero bytes offset (x ∷ xs) h less =
    let at : IsItemAt bytes offset x = h.0 in
    rw (at.item_length, at.room_for_length, at.room_for_item, at.item_bytes) refl
index_loop-items (suc n) bytes offset (x ∷ xs) h less =
    let at : IsItemAt bytes offset x = h.0 in
    rw (at.item_length, at.room_for_length)
      (index_loop-items n bytes (offset + 4 + length x) xs h.1 (omega arith))

position_pos : (n i : ℕ) → n < 2 ^ 63 → i < 2 ^ 63 → from_end i n ≡ i
position_pos n i hn hi = ground arith

position_negsuc : (n i : ℕ) → n < 2 ^ 63 → i < n → from_end (2 ^ 64 - suc i) n ≡ n - suc i
position_negsuc n i hn hi = ground arith

-- The position that the closures compute, or a test that refuses it, for every index.
pub position_cases :
    (n : ℕ) (z : ℤ)
    → n < 2 ^ 63
    → InRange z
    → ((out_of_bounds (from_end (of_ℤ z) n) n ≡ false)
        × (from_end (of_ℤ z) n ≡ place n z)
        × (place n z < n))
      ⊎ ((out_of_bounds (from_end (of_ℤ z) n) n ≡ true) × (place n z ≡ n))
position_cases n (pos i) hn hi = ground arith
position_cases n (negsuc i) hn hi = ground arith

get_elem?-past {ℓ} : {A : Type ℓ} (xs : List A) → get_elem? xs (length xs) ≡ none
get_elem?-past [] = refl
get_elem?-past (x ∷ xs) = get_elem?-past xs

-- `LIndex` on a stored list answers with the item that the index names, and with the error of a
-- missing key when it names none.
pub lindex_value-encode_list :
    (xs : List Bytes) (z : ℤ)
    → IsStorable xs
    → InRange z
    → lindex_value (encode_list xs) (of_ℤ z) ≡ found_or_missing (get_elem? xs (place (length xs) z))
unfolding lindex_value
lindex_value-encode_list xs z h hz =
    rw (header-encode_list xs, count-encode_list xs (omega (arith, h.count)))
      (elim (position_cases (length xs) z h.count hz) [
        | inl (inside, at, less) ↦
            rw (inside, at)
              (index_loop-items (place (length xs) z) (encode_list xs) 8 xs
                (items-encode_list xs h.items) less)
        | inr (outside, past) ↦ rw (outside, past, get_elem?-past xs) refl
      ])

pub llen_value-encode_list :
    (xs : List Bytes) → IsStorable xs → llen_value (encode_list xs) ≡ length xs
unfolding llen_value
llen_value-encode_list xs h =
    rw (header-encode_list xs) (count-encode_list xs (omega (arith, h.count)))
