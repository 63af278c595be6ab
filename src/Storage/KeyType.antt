-- ===== src/Storage/KeyType.antt =====
-- `checkKeyType` of internal/storage/utils.go and the tests of a value's shape.
use keyp.Base.{ℕ, Bool, not, ◌&&◌, Option, none, some}
use keyp.Base.{if◌then◌else◌}
use keyp.Bytes.{Bytes}
use keyp.Domain.{Error, Context, context_canceled, storage_wrong_type}
use keyp.Lmdb.{Lmdb, Reply, ok, err}
use keyp.Storage.{Client, has_error, ctx_flush, is_empty, is_not_found, sel}
use keyp.Storage.Lists.{has_header, is_list_data}

pub data Kind : Type 0 where
  list string set zset : Kind

-- `isSetData` and `isSortedSetData`: any value of eight bytes passes.
abbrev pub is_set_data : Bytes → Bool
is_set_data bytes = has_header bytes

abbrev pub is_sorted_set_data : Bytes → Bool
is_sorted_set_data bytes = has_header bytes

unfoldable pub is_string_data : Bytes → Bool
is_string_data bytes =
    not (is_list_data bytes) && (not (is_set_data bytes) && not (is_sorted_set_data bytes))

unfoldable pub is_of_kind : Kind → Bytes → Bool
is_of_kind list bytes = is_list_data bytes
is_of_kind string bytes = is_string_data bytes
is_of_kind set bytes = is_set_data bytes
is_of_kind zset bytes = is_sorted_set_data bytes

-- The closure: what it stores in `checkErr`, and the error that it returns.
unfoldable pub key_type_of : Kind → Reply Bytes → Option Error × Option Error
key_type_of kind (ok bytes) =
    (if is_of_kind kind bytes then none else some storage_wrong_type, none)
key_type_of kind (err e) = if is_not_found e then (none, none) else (none, some e)

module _ (l : Lmdb) where
  check_key_txn : ℕ → Bytes → Kind → l.Env → Option Error × Option Error
  check_key_txn d key kind t = key_type_of kind (l.get t d key)

  -- The number tells which look at the context this is in the calling operation.
  unfoldable pub check_key_type : ℕ → Context → Bytes → Kind → Client l → Client l × Option Error
  unfolding check_key_txn
  check_key_type i ctx key kind c =
      if has_error (ctx_flush ctx i)
      then (c, some context_canceled)
      else if is_empty key
      then (c, none)
      else (let (c', d, e) = sel l ctx c in
          let (check_error, view_error) = l.view none (check_key_txn d key kind) c'.env in
          if has_error e
          then (c', e)
          else if has_error view_error
          then (c', view_error)
          else (c', check_error))
