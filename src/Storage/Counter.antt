-- ===== src/Storage/Counter.antt =====
-- `modifyIntegerBy` of utils.go, with incr.go, incrby.go, decr.go and decrby.go.
pub mod Refine
use keyp.Base.{ℕ, Option, none, some, List, [], ◌∷◌, if◌then◌else◌}
use keyp.Bytes.{Bytes}
use keyp.Int64.{add64, sub64}
use keyp.Decimal.{Parsed, parsed, bad_syntax, out_of_range, format_int64, parse_int64}
use keyp.Domain.{Error, Context, key_not_found, not_integer, context_canceled}
use keyp.Lmdb.{Lmdb, Reply, ok, err, on_reply, on_error}
use keyp.Storage.{Client, has_error, ctx_flush, is_empty, is_not_found, sel}
use keyp.Storage.ListCommands.{answer, settle}

-- The integer that a stored text holds.
abbrev pub integer_of : Parsed → Reply ℕ
integer_of (parsed n) = ok n
integer_of bad_syntax = err not_integer
integer_of (out_of_range n) = err not_integer

module _ (l : Lmdb) where
  -- The closure: the result and the transaction.
  unfoldable pub modify_txn : ℕ → Bytes → ℕ → (ℕ → ℕ → ℕ) → l.Env → ℕ × Reply l.Env
  modify_txn d key delta operation t =
      on_reply (l.get t d key)
        (λ e.
          if is_not_found e
          then (operation 0 delta, l.put t d key (format_int64 (operation 0 delta)))
          else (0, err e))
        λ bytes.
          on_reply (integer_of (parse_int64 bytes)) (λ e. (0, err e))
            λ value. (operation value delta, l.put t d key (format_int64 (operation value delta)))

  unfoldable pub modify_integer_by :
      Context → Bytes → ℕ → (ℕ → ℕ → ℕ) → Client l → Client l × Reply ℕ
  unfolding modify_txn
  modify_integer_by ctx key delta operation c =
      if has_error (ctx_flush ctx 0)
      then (c, err context_canceled)
      else if is_empty key
      then (c, err key_not_found)
      else (let (c', d, e) = sel l ctx c in
          let r = l.update 0 (modify_txn d key delta operation) c'.env in
          on_error e (λ fault. (c', err fault)) (settle l c' r, answer r))

  unfoldable pub incr_by : Context → Bytes → ℕ → Client l → Client l × Reply ℕ
  unfolding modify_integer_by
  incr_by ctx key increment =
      modify_integer_by ctx key increment (λ current delta. add64 current delta)

  unfoldable pub decr_by : Context → Bytes → ℕ → Client l → Client l × Reply ℕ
  unfolding modify_integer_by
  decr_by ctx key decrement =
      modify_integer_by ctx key decrement (λ current delta. sub64 current delta)

  unfoldable pub incr : Context → Bytes → Client l → Client l × Reply ℕ
  unfolding incr_by
  incr ctx key = incr_by ctx key 1

  unfoldable pub decr : Context → Bytes → Client l → Client l × Reply ℕ
  unfolding decr_by
  decr ctx key = decr_by ctx key 1
