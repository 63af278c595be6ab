-- ===== src/Storage/Strings.antt =====
-- get.go, set.go, del.go, exists.go, append.go and flushall.go of internal/storage.
pub mod Refine
pub mod Removal
use keyp.Base.{
  ℕ, zero, suc, ◌+◌, ◌%◌, ◌^◌, Bool, true, false, Option, none, some, List, [], ◌∷◌, ◌++◌,
}
use keyp.Base.{length, if◌then◌else◌}
use keyp.Bytes.{Bytes}
use keyp.Domain.{Error, Context, key_not_found}
use keyp.Lmdb.{Lmdb, Reply, ok, err, ok_or, error_of, on_reply, on_error}
use keyp.Storage.{Client, has_error, ctx_flush, is_empty, is_not_found, is_lmdb_not_found, sel}
use keyp.Storage.ListCommands.{answer, answer_of_view, settle}

-- `sel` before `ctxFlush`: the first error of the two.
abbrev pub first_error : Option Error → Option Error → Option Error
first_error none e = e
first_error (some e) e' = some e

module _ (l : Lmdb) where
  -- The closure of `Get`: `result` and `getErr`, then the error that it returns.
  unfoldable pub get_txn : ℕ → Context → Bytes → l.Env → Reply Bytes × Option Error
  get_txn d ctx key t =
      on_error (ctx_flush ctx 1) (λ stopped. (ok [], some stopped))
        (on_reply (l.get t d key)
          (λ e. if is_not_found e then (err key_not_found, none) else (ok [], some e))
          (λ bytes. (ok bytes, none)))

  unfoldable pub get : Context → Bytes → Client l → Client l × Reply Bytes
  get ctx key c =
      let (c', d, e) = sel l ctx c in
      let (result, view_error) = l.view (ok []) (get_txn d ctx key) c'.env in
      on_error (first_error e (ctx_flush ctx 0)) (λ stopped. (c', err stopped))
        (on_error view_error (λ fault. (c', err fault)) (c', result))

  unfoldable pub set_txn : ℕ → Context → Bytes → Bytes → l.Env → Unit {0} × Reply l.Env
  set_txn d ctx key val t =
      on_error (ctx_flush ctx 1) (λ stopped. (tt, err stopped)) (tt, l.put t d key val)

  unfoldable pub set : Context → Bytes → Bytes → Client l → Client l × Option Error
  set ctx key val c =
      let (c', d, e) = sel l ctx c in
      let r = l.update tt (set_txn d ctx key val) c'.env in
      on_error (first_error e (ctx_flush ctx 0)) (λ stopped. (c', some stopped))
        (settle l c' r, error_of r.1)

  -- The loop of `Del`: the keys that are left, what was deleted so far, and the contents.
  unfoldable pub del_loop : ℕ → List Bytes → ℕ → l.Env → ℕ × Reply l.Env
  del_loop d [] deleted t = (deleted, ok t)
  del_loop d (key ∷ keys) deleted t = elim (l.del t d key) [
    | ok t' ↦ del_loop d keys ((deleted + 1) % 2 ^ 32) t'
    | err e ↦ elim (is_not_found e) [ true ↦ del_loop d keys deleted t | false ↦ (deleted, err e) ]
  ]

  unfoldable pub del_txn : ℕ → Context → List Bytes → l.Env → ℕ × Reply l.Env
  unfolding del_loop
  del_txn d ctx keys t =
      on_error (ctx_flush ctx 1) (λ stopped. (0, err stopped)) (del_loop d keys 0 t)

  unfoldable pub del : Context → List Bytes → Client l → Client l × Reply ℕ
  del ctx keys c =
      let (c', d, e) = sel l ctx c in
      let r = l.update 0 (del_txn d ctx keys) c'.env in
      on_error (first_error e (ctx_flush ctx 0)) (λ stopped. (c', err stopped))
        (if is_empty keys then (c', ok 0) else (settle l c' r, answer r))

  unfoldable pub exists_txn : ℕ → Bytes → l.Env → Unit {0} × Option Error
  exists_txn d key t = (tt, error_of (l.get t d key))

  unfoldable pub exists : Context → Bytes → Client l → Client l × Bool
  exists ctx key c =
      if has_error (ctx_flush ctx 0)
      then (c, false)
      else if is_empty key
      then (c, false)
      else (let (c', d, e) = sel l ctx c in
          let r = l.view tt (exists_txn d key) c'.env in
          if has_error e then (c', false) else (c', if has_error r.1 then false else true))

  -- The closure of `Append`: the new length and the transaction's result.
  unfoldable pub append_txn : ℕ → Bytes → Bytes → l.Env → ℕ × Reply l.Env
  append_txn d key value t =
      on_reply (l.get t d key)
        (λ e. if is_not_found e then (length value, l.put t d key value) else (0, err e))
        λ bytes. (length (bytes ++ value), l.put t d key (bytes ++ value))

  unfoldable pub append : Context → Bytes → Bytes → Client l → Client l × ℕ
  append ctx key value c =
      if has_error (ctx_flush ctx 0)
      then (c, 0)
      else if is_empty key
      then (c, 0)
      else (let (c', d, e) = sel l ctx c in
          let r = l.update 0 (append_txn d key value) c'.env in
          if has_error e then (c', 0) else (settle l c' r, ok_or 0 (answer r)))

  -- The loop of `FlushAll`, on fuel: first entry, delete, again; `none` when the fuel runs out.
  unfoldable pub flush_loop : ℕ → ℕ → l.Env → Option (Reply l.Env)
  flush_loop zero d t = none
  flush_loop (suc fuel) d t = elim (l.cursor_first t d) [
    | err e ↦ some (if is_lmdb_not_found e then ok t else err e)
    | ok key ↦ elim (l.cursor_del t d) [ err e ↦ some (err e) | ok t' ↦ flush_loop fuel d t' ]
  ]

  -- The answer of a loop that has ended; `entries` bounds its rounds.
  abbrev ended : Option (Reply l.Env) → Reply l.Env
  ended none = err key_not_found
  ended (some r) = r

  unfoldable pub flush_txn : ℕ → l.Env → Unit {0} × Reply l.Env
  unfolding flush_loop
  flush_txn d t =
      on_error (l.open_cursor t d) (λ e. (tt, err e))
        (tt, ended (flush_loop (suc (l.entries t d)) d t))

  unfoldable pub flush_all : Context → Client l → Client l × Option Error
  flush_all ctx c =
      on_error (ctx_flush ctx 0) (λ stopped. (c, some stopped))
        (let (c', d, e) = sel l ctx c in
          let r = l.update tt (flush_txn d) c'.env in
          on_error e (λ fault. (c', some fault)) (settle l c' r, error_of r.1))
