-- ===== src/Storage/ListCommands/Reads.antt =====
-- LRANGE, LINDEX and LLEN on a reliable environment, against lists of byte strings.
use keyp.Base.{ℕ, ◌≡◌, inl, inr, refl, none, some}
use keyp.Base.{List, [], length, Option, get_elem?, drop-nil, take-nil}
use keyp.Bytes.{Bytes}
use keyp.Int64.{ℤ, of_ℤ, InRange}
use keyp.Domain.{Context}
use keyp.Lmdb.{Lmdb, Reply, ok, ok_or, error_of, IsReliable}
use keyp.Storage.{Client}
use keyp.Storage.Lists.Format.{IsStorable}
use keyp.Storage.Lists.Push.{IsStored}
use keyp.Storage.Lists.Range.{lrange_value-encode_list}
unfoldable use keyp.Storage.Lists.Bounds.{range}
use keyp.Storage.Lists.Index.{
  place, found_or_missing, lindex_value-encode_list, llen_value-encode_list,
}
use keyp.Storage.ListCommands.{
  lrange, lrange_txn, lindex, lindex_txn, llen, llen_txn, answer_of_view,
}
use keyp.Storage.ListCommands.Ready.{IsReady, flush, key_not_empty, selected}

module _ {l : Lmdb} (r : IsReliable l) where
  -- On a reliable environment, with a live context, the database of the context open and a key of
  -- 1 to 511 bytes: LRANGE answers with the part of the stored and storable list that its two
  -- int64 bounds name, negative bounds counting from the end, and changes nothing; a missing key
  -- is the empty list.
  pub lrange_refines :
      (ctx : Context) (key : Bytes) (c : Client l) (d : ℕ) (xs : List Bytes) (start stop : ℤ)
      → IsReady l ctx key c d
      → IsStored (l.get c.env d key) xs
      → IsStorable xs
      → InRange start
      → InRange stop
      → lrange l ctx key (of_ℤ start) (of_ℤ stop) c ≡ (c, ok (range xs start stop))
  unfolding lrange lrange_txn
  lrange_refines ctx key c d xs start stop ready (inl found) h hs he =
      rw
        (
          flush ready 0,
          key_not_empty ready,
          selected ready,
          r.view_runs,
          found,
          lrange_value-encode_list xs start stop h hs he,
        )
        refl
  lrange_refines ctx key c d xs start stop ready (inr (found, no_items)) h hs he =
      rw (flush ready 0, key_not_empty ready, selected ready, r.view_runs, found, no_items)
        (unfold range in rw (drop-nil, take-nil) refl)

  -- On a reliable environment, with a live context, the database of the context open and a key of
  -- 1 to 511 bytes: LINDEX answers with the item of the stored and storable list that the int64
  -- index names, or the error of a missing key, and changes nothing.
  pub lindex_refines :
      (ctx : Context) (key : Bytes) (c : Client l) (d : ℕ) (xs : List Bytes) (z : ℤ)
      → IsReady l ctx key c d
      → IsStored (l.get c.env d key) xs
      → IsStorable xs
      → InRange z
      → lindex l ctx key (of_ℤ z) c ≡ (c, found_or_missing (get_elem? xs (place (length xs) z)))
  unfolding lindex lindex_txn
  lindex_refines ctx key c d xs z ready (inl found) h hz =
      rw
        (
          flush ready 0,
          key_not_empty ready,
          selected ready,
          r.view_runs,
          found,
          lindex_value-encode_list xs z h hz,
        )
        (back (get_elem? xs (place (length xs) z)))
    where
      back :
          (o : Option Bytes)
          → ◌≡◌ {A = Client l × Reply Bytes}
              (c, answer_of_view (ok_or [] (found_or_missing o), error_of (found_or_missing o)))
              (c, found_or_missing o)
      back none = refl
      back (some x) = refl
  lindex_refines ctx key c d xs z ready (inr (found, no_items)) h hz =
      rw (flush ready 0, key_not_empty ready, selected ready, r.view_runs, found, no_items) refl

  -- On a reliable environment, with a live context, the database of the context open and a key of
  -- 1 to 511 bytes: LLEN answers with the number of items of the stored and storable list, 0 for
  -- a missing key, and changes nothing.
  pub llen_refines :
      (ctx : Context) (key : Bytes) (c : Client l) (d : ℕ) (xs : List Bytes)
      → IsReady l ctx key c d
      → IsStored (l.get c.env d key) xs
      → IsStorable xs
      → llen l ctx key c ≡ (c, length xs)
  unfolding llen llen_txn
  llen_refines ctx key c d xs ready (inl found) h =
      rw
        (
          flush ready 0,
          key_not_empty ready,
          selected ready,
          r.view_runs,
          found,
          llen_value-encode_list xs h,
        )
        refl
  llen_refines ctx key c d xs ready (inr (found, no_items)) h =
      rw (flush ready 0, key_not_empty ready, selected ready, r.view_runs, found, no_items) refl
