-- ===== src/Service/Stored/Pipelines.antt =====
-- RPUSH and LRANGE of a connection, from the texts of the commands to the array of the reply.
use keyp.Base.{
  ℕ, ◌+◌, ◌^◌, ◌≡◌, refl, ◌∙◌, ◌<◌, leb, ◌==◌, arith, true, false, none, some, List, [], ◌∷◌, ◌++◌,
  length,
}
use keyp.Base.{All, All-append, length-append}
use keyp.Bytes.{Bytes, codes}
unfoldable use keyp.Bytes.{bytes_eq}
use keyp.Int64.{ℤ, pos, negsuc, of_ℤ, InRange}
use keyp.Int64.Laws.{of_ℤ-IsInt64}
use keyp.Decimal.{format_int64}
use keyp.Decimal.RoundTrip.{parse_int64-format_int64}
use keyp.Dict.{Dict, string_eq}
unfoldable use keyp.Dict.{lookup}
use keyp.Domain.{Context}
use keyp.Lmdb.{Lmdb, ok, IsStore, IsReliable}
use keyp.Service.{Args, Persister, Runtime, returns, normalize_command_name, Validation}
unfoldable use keyp.Service.{is_valid}
use keyp.Service.Commands.{respond}
use keyp.Service.Commands as Cmd
use keyp.Service.Format.{format_array}
use keyp.Service.Dispatch.{apply, commands, validations, do_command}
use keyp.Service.Dispatch.Transaction.{apply_all, apply-runs}
use keyp.Service.Stored.{stored, moment}
use keyp.Service.Stored.Commands.{serving}
use keyp.Storage.{Client}
use keyp.Storage.ListCommands as Lists
use keyp.Storage.ListCommands.Ready.{IsReady, IsReady-again}
use keyp.Storage.ListCommands.Pushes.{Updates, rpush_refines}
use keyp.Storage.ListCommands.Reads.{lrange_refines}
use keyp.Storage.Lists.Bounds.{range}
use keyp.Storage.Lists.Format.{IsItem, IsStorable}
use keyp.Storage.Lists.Push.{IsStored}

abbrev three_or_more : Validation
three_or_more = record { min_args = 3; max_args = negsuc 0 }

abbrev four_only : Validation
four_only = record { min_args = 4; max_args = pos 4 }

rpush_known : lookup (codes "RPUSH") validations ≡ some three_or_more
unfolding validations lookup bytes_eq
rpush_known = refl

lrange_known : lookup (codes "LRANGE") validations ≡ some four_only
unfolding validations lookup bytes_eq
lrange_known = refl

module _ (rt : Runtime) (p : Persister) where
  rpush_found :
      (fuel : ℕ)
      → lookup (codes "RPUSH") (commands rt p (do_command rt p fuel)) ≡ some (Cmd.rpush rt p)
  unfolding commands lookup bytes_eq
  rpush_found fuel = refl

  lrange_found :
      (fuel : ℕ)
      → lookup (codes "LRANGE") (commands rt p (do_command rt p fuel)) ≡ some (Cmd.lrange rt p)
  unfolding commands lookup bytes_eq
  lrange_found fuel = refl

IsStorable-append :
    (xs ys : List Bytes)
    → IsStorable xs
    → All IsItem ys
    → length xs + length ys < 2 ^ 63
    → IsStorable (xs ++ ys)
IsStorable-append xs ys h items fits = record {
  count = omega (arith, length-append xs ys);
  items = All-append IsItem xs ys h.items items;
}

module _ (rt : Runtime) {l : Lmdb} (s : IsStore l) (r : IsReliable l) where
  module _ (order : List Bytes → List Bytes) (score_order : Dict Bytes ℕ → Dict Bytes ℕ)
      (now : ℕ) where
    abbrev client : Persister
    client = stored l order score_order

    rpush_step :
        (fuel : ℕ) (ctx ctx' : Context) (key v : Bytes) (vs : List Bytes) (c c' : Client l) (n : ℕ)
        (queue : List Args)
        → 0 < n
        → Lists.rpush l ctx key (v ∷ vs) c ≡ (c', n)
        → apply rt client fuel ctx'
            (codes "RPUSH" ∷ key ∷ v ∷ vs)
            (serving client ctx (moment now c) queue)
          ≡ returns (serving client ctx (moment now c') queue, respond (format_int64 n) ∷ [])
    unfolding Cmd.rpush Cmd.pushed normalize_command_name is_valid
    rpush_step fuel ctx ctx' key v vs c c' n queue some_n pushed =
        let args : Args = codes "RPUSH" ∷ key ∷ v ∷ vs in
        let valid : is_valid three_or_more (codes "RPUSH") (length args) ≡ none = ground arith in
        let there : leb 2 (length args) ≡ true = ground arith in
        let many : (n == 0) ≡ false = ground arith in
        apply-runs rt client fuel ctx' (codes "RPUSH") (key ∷ v ∷ vs)
          (serving client ctx (moment now c) queue) (codes "RPUSH") three_or_more
          (Cmd.rpush rt client) refl rpush_known valid (rpush_found rt client fuel) refl
        ∙ rw (there, pushed, many) refl

    pub lrange_step :
        (fuel : ℕ) (ctx ctx' : Context) (key : Bytes) (start stop : ℤ) (c c' : Client l)
        (xs : List Bytes) (queue : List Args)
        → InRange start
        → InRange stop
        → Lists.lrange l ctx key (of_ℤ start) (of_ℤ stop) c ≡ (c', ok xs)
        → apply rt client fuel ctx'
            (codes "LRANGE" ∷ key ∷ format_int64 (of_ℤ start) ∷ format_int64 (of_ℤ stop) ∷ [])
            (serving client ctx (moment now c) queue)
          ≡ returns (serving client ctx (moment now c') queue, respond (format_array xs) ∷ [])
    unfolding Cmd.lrange normalize_command_name is_valid
    lrange_step fuel ctx ctx' key start stop c c' xs queue hs he read =
        apply-runs rt client fuel ctx' (codes "LRANGE")
          (key ∷ format_int64 (of_ℤ start) ∷ format_int64 (of_ℤ stop) ∷ [])
          (serving client ctx (moment now c) queue) (codes "LRANGE") four_only
          (Cmd.lrange rt client) refl lrange_known refl (lrange_found rt client fuel) refl
        ∙ rw
            (
              parse_int64-format_int64 (of_ℤ start) (of_ℤ-IsInt64 start hs),
              parse_int64-format_int64 (of_ℤ stop) (of_ℤ-IsInt64 stop he),
              read,
            )
            refl

    -- On a reliable environment, with a live context, the database of the context open and a key
    -- of 1 to 511 bytes: RPUSH of at least one value and then LRANGE of the key, sent outside a
    -- transaction with the texts of two int64 bounds: the answers are the new length and the RESP
    -- array of the part of the longer list that the bounds name, the stored list is the longer
    -- one, no other key is touched and the queue stays. The list before is storable, each value
    -- is shorter than 2 ^ 32 and the new length is below 2 ^ 63.
    pub rpush-lrange :
        (fuel : ℕ) (ctx ctx' : Context) (key : Bytes) (c : Client l) (d : ℕ) (xs : List Bytes)
        (v : Bytes) (vs : List Bytes) (start stop : ℤ) (queue : List Args)
        → IsReady l ctx key c d
        → IsStored (l.get c.env d key) xs
        → IsStorable xs
        → All IsItem (v ∷ vs)
        → length xs + length (v ∷ vs) < 2 ^ 63
        → InRange start
        → InRange stop
        → (t : l.Env) × (apply_all rt client fuel ctx'
              ((codes "RPUSH" ∷ key ∷ v ∷ vs)
                ∷ (codes "LRANGE" ∷ key ∷ format_int64 (of_ℤ start) ∷ format_int64 (of_ℤ stop) ∷ [])
                ∷ [])
              (serving client ctx (moment now c) queue)
            ≡ returns (
              serving client ctx (moment now (record c { env = t })) queue,
              respond (format_int64 (length xs + length (v ∷ vs)))
                  ∷ respond (format_array (range (xs ++ v ∷ vs) start stop))
                  ∷ [],
            ))
          × Updates l c.env d key (xs ++ v ∷ vs) t
    unfolding apply_all
    rpush-lrange fuel ctx ctx' key c d xs v vs start stop queue ready there h items fits hs he =
        let (t, pushed, updates) = rpush_refines s r ctx key c d xs v vs ready there h fits in
        let c' : Client l = record c { env = t } in
        let read =
          lrange_refines r ctx key c' d (xs ++ v ∷ vs) start stop (IsReady-again ready t)
            updates.stored (IsStorable-append xs (v ∷ vs) h items fits) hs he in
        (
          t,
          rw
              (
                rpush_step fuel ctx ctx' key v vs c c' _ queue (omega arith) pushed,
                lrange_step fuel ctx ctx' key start stop c' c' _ queue hs he read,
              )
              refl,
          updates,
        )
