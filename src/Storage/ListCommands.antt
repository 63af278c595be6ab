-- ===== src/Storage/ListCommands.antt =====
-- lpush.go, rpush.go, lpop.go, rpop.go, lindex.go, lrange.go, lset.go and llen.go: the guards, the
-- transaction and the answer of each operation.
pub mod Ready
pub mod Pushes
pub mod Pops
pub mod Reads
use keyp.Base.{
  ℕ, ◌≡◌, refl, Bool, true, false, ◌||◌, Option, none, some, List, [], ◌∷◌, if◌then◌else◌,
}
use keyp.Bytes.{Bytes}
use keyp.Domain.{Error, Context, key_not_found}
use keyp.Lmdb.{Lmdb, Reply, ok, err, ok_or, error_of, on_reply, on_error}
use keyp.Storage.{Client, has_error, ctx_flush, is_empty, sel}
use keyp.Storage.Lists.{
  rpush_value, lpush_value, lpop_value, rpop_value, lindex_value, lrange_value,
}
use keyp.Storage.Lists.{lset_value, llen_value}
use keyp.Storage.KeyType.{list, check_key_type}

-- What is returned after a transaction: the captured value, or the error.
abbrev pub answer {ℓ} : {A : Type ℓ} {B : Type 0} → A × Reply B → Reply A
answer (a, ok b) = ok a
answer (a, err e) = err e

abbrev pub answer_of_view {ℓ} : {A : Type ℓ} → A × Option Error → Reply A
answer_of_view (a, none) = ok a
answer_of_view (a, some e) = err e

module _ (l : Lmdb) where
  -- The client after `client.env.Update`.
  abbrev pub settle {ℓ} : {A : Type ℓ} → Client l → A × Reply l.Env → Client l
  settle c r = record c { env = ok_or c.env r.1 }

  -- `RPush` and `LPush`, by what they make of the value that is there.
  unfoldable pub push_txn :
      (Reply Bytes → List Bytes → ℕ × Bytes) → ℕ → Bytes → List Bytes → l.Env → ℕ × Reply l.Env
  push_txn value_of d key values t =
      let (n, bytes) = value_of (l.get t d key) values in (n, l.put t d key bytes)

  unfoldable pub push :
      (Reply Bytes → List Bytes → ℕ × Bytes)
      → Context
      → Bytes
      → List Bytes
      → Client l
      → Client l × ℕ
  push value_of ctx key values c =
      if has_error (ctx_flush ctx 0)
      then (c, 0)
      else if is_empty key || is_empty values
      then (c, 0)
      else (let (c', type_error) = check_key_type l 1 ctx key list c in
          let (c'', d, e) = sel l ctx c' in
          let r = l.update 0 (push_txn value_of d key values) c''.env in
          if has_error type_error
          then (c', 0)
          else if has_error e
          then (c'', 0)
          else (settle c'' r, ok_or 0 (answer r)))

  unfoldable pub rpush : Context → Bytes → List Bytes → Client l → Client l × ℕ
  unfolding push
  rpush = push rpush_value

  unfoldable pub lpush : Context → Bytes → List Bytes → Client l → Client l × ℕ
  unfolding push
  lpush = push lpush_value

  -- `LPop` and `RPop`, by what they take off the value.
  -- The value that a pop leaves is put back, and no value is a deletion.
  abbrev leave : ℕ → Bytes → Option Bytes → l.Env → Reply l.Env
  leave d key none t = l.del t d key
  leave d key (some rest) t = l.put t d key rest

  unfoldable pub pop_txn :
      (Bytes → Reply (Bytes × Option Bytes)) → ℕ → Bytes → l.Env → Bytes × Reply l.Env
  pop_txn take_off d key t =
      on_reply (l.get t d key) (λ e. ([], err key_not_found))
        λ bytes.
          on_reply (take_off bytes) (λ e. ([], err e)) λ taken. (taken.0, leave d key taken.1 t)

  unfoldable pub pop :
      (Bytes → Reply (Bytes × Option Bytes)) → Context → Bytes → Client l → Client l × Reply Bytes
  pop take_off ctx key c =
      on_error (ctx_flush ctx 0) (λ stopped. (c, err stopped))
        (if is_empty key
          then (c, err key_not_found)
          else (let (c', d, e) = sel l ctx c in
              let r = l.update [] (pop_txn take_off d key) c'.env in
              if has_error e then (c', err key_not_found) else (settle c' r, answer r)))

  unfoldable pub lpop : Context → Bytes → Client l → Client l × Reply Bytes
  unfolding pop
  lpop = pop lpop_value

  unfoldable pub rpop : Context → Bytes → Client l → Client l × Reply Bytes
  unfolding pop
  rpop = pop rpop_value

  unfoldable pub lindex_txn : ℕ → Bytes → ℕ → l.Env → Bytes × Option Error
  lindex_txn d key index t =
      on_reply (l.get t d key) (λ e. ([], some key_not_found))
        λ bytes. let found = lindex_value bytes index in (ok_or [] found, error_of found)

  unfoldable pub lindex : Context → Bytes → ℕ → Client l → Client l × Reply Bytes
  lindex ctx key index c =
      on_error (ctx_flush ctx 0) (λ stopped. (c, err stopped))
        (if is_empty key
          then (c, err key_not_found)
          else (let (c', d, e) = sel l ctx c in
              let r = l.view [] (lindex_txn d key index) c'.env in
              if has_error e then (c', err key_not_found) else (c', answer_of_view r)))

  unfoldable pub lrange_txn : ℕ → Bytes → ℕ → ℕ → l.Env → List Bytes × Option Error
  lrange_txn d key start stop t =
      on_reply (l.get t d key) (λ e. ([], none))
        λ bytes. let taken = lrange_value bytes start stop in (ok_or [] taken, error_of taken)

  unfoldable pub lrange : Context → Bytes → ℕ → ℕ → Client l → Client l × Reply (List Bytes)
  lrange ctx key start stop c =
      on_error (ctx_flush ctx 0) (λ stopped. (c, err stopped))
        (if is_empty key
          then (c, ok [])
          else (let (c', d, e) = sel l ctx c in
              let r = l.view [] (lrange_txn d key start stop) c'.env in
              if has_error e then (c', ok []) else (c', answer_of_view r)))

  unfoldable pub lset_txn : ℕ → Bytes → ℕ → Bytes → l.Env → Unit {0} × Reply l.Env
  lset_txn d key index value t =
      on_reply (l.get t d key) (λ e. (tt, err key_not_found))
        λ bytes.
          on_reply (lset_value bytes index value) (λ e. (tt, err e))
            λ bytes'. (tt, l.put t d key bytes')

  unfoldable pub lset : Context → Bytes → ℕ → Bytes → Client l → Client l × Option Error
  lset ctx key index value c =
      on_error (ctx_flush ctx 0) (λ stopped. (c, some stopped))
        (if is_empty key
          then (c, some key_not_found)
          else (let (c', d, e) = sel l ctx c in
              let r = l.update tt (lset_txn d key index value) c'.env in
              if has_error e then (c', some key_not_found) else (settle c' r, error_of r.1)))

  unfoldable pub llen_txn : ℕ → Bytes → l.Env → ℕ × Option Error
  llen_txn d key t = on_reply (l.get t d key) (λ e. (0, some e)) λ bytes. (llen_value bytes, none)

  unfoldable pub llen : Context → Bytes → Client l → Client l × ℕ
  llen ctx key c =
      if has_error (ctx_flush ctx 0)
      then (c, 0)
      else if is_empty key
      then (c, 0)
      else (let (c', d, e) = sel l ctx c in
          let r = l.view 0 (llen_txn d key) c'.env in
          if has_error e then (c', 0) else (c', ok_or 0 (answer_of_view r)))
