-- ===== src/App/Wire.antt =====
-- From a command that a connection receives to the bytes that it is sent: LRANGE over a socket.
use keyp.Base.{ℕ, ◌≡◌, refl, sym, ap, ◌∙◌, ◌<◌, ◌≤◌, ◌^◌, arith, some, List, [], ◌∷◌, length, All}
use keyp.Base.{append-nil, All-implies, All-take, All-drop, length-take, length-drop, ◌-◌, drop}
use keyp.Bytes.{Bytes, codes}
use keyp.Int64.{ℤ, of_ℤ, InRange}
use keyp.Decimal.{format_int64}
use keyp.Dict.{Dict, lookup, insert, nat_eq}
use keyp.Domain.{Context}
use keyp.Lmdb.{Lmdb, IsStore, IsReliable}
use keyp.Service.{Args, Persister, Runtime, returns}
use keyp.Service.Commands.{respond}
unfoldable use keyp.Service.Format.{format_array}
use keyp.Service.Format.Reader.{read_array, read_array-format_array}
use keyp.Service.Stored.{stored}
use keyp.Service.Stored.Commands.{serving}
use keyp.Service.Stored.Pipelines.{lrange_step}
use keyp.Storage.ListCommands.Ready.{IsReady}
use keyp.Storage.ListCommands.Reads.{lrange_refines}
use keyp.Storage.Lists.Format.{IsItem, IsStorable}
use keyp.Storage.Lists.Push.{IsStored}
unfoldable use keyp.Storage.Lists.Bounds.{range}
use keyp.Storage.Lists.Bounds.{range_start, range_end}
use keyp.App.{Server, write_raw, write_result, on_handler, answer}
use keyp.App.Apart.{on_handler-found}

write_result-format_array :
    (rt : Runtime) (xs : List Bytes)
    → write_result rt (respond (format_array xs)) ≡ write_raw (format_array xs)
unfolding write_result format_array
write_result-format_array rt [] = refl
write_result-format_array rt (x ∷ xs) = refl

range-All {ℓ κ} :
    {A : Type ℓ} (P : A → Type κ) (xs : List A) (start stop : ℤ)
    → All P xs
    → All P (range xs start stop)
unfolding range
range-All P xs start stop h = All-take P _ _ (All-drop P _ xs h)

length-range {ℓ} :
    {A : Type ℓ} (xs : List A) (start stop : ℤ) → length (range xs start stop) ≤ length xs
unfolding range
length-range xs start stop =
    let part : ℕ = range_end (length xs) stop - range_start (length xs) start in
    omega (
      arith,
      length-take part (drop (range_start (length xs) start) xs),
      length-drop (range_start (length xs) start) xs,
    )

-- What formatArray makes of a part of a storable list reads back.
read_array-range :
    (xs : List Bytes) (start stop : ℤ)
    → IsStorable xs
    → read_array (format_array (range xs start stop)) ≡ some (range xs start stop, [])
read_array-range xs start stop h =
    ap read_array (sym (append-nil (format_array (range xs start stop))))
    ∙ read_array-format_array (range xs start stop) []
        (omega (arith, h.count, length-range xs start stop))
        (range-All _ xs start stop
          (All-implies IsItem (λ x. length x < 2 ^ 64) xs (λ x short. omega arith) h.items))

module _ (rt : Runtime) {l : Lmdb} (s : IsStore l) (r : IsReliable l) where
  module _ (order : List Bytes → List Bytes) (score_order : Dict Bytes ℕ → Dict Bytes ℕ) where
    abbrev client : Persister
    client = stored l order score_order

    -- On a reliable environment, with a live context of the handler, the database of that context
    -- open and a key of 1 to 511 bytes: LRANGE of a storable list, sent with the texts of two
    -- int64 bounds on a connection whose handler is outside of a transaction: what is written raw
    -- is one RESP array, which reads back as the part of the list that the bounds name. The
    -- storage stays, and so does the handler, which has taken the storage of the server.
    pub lrange-written :
        (fuel : ℕ) (others : Server client → Server client) (ctx ctx' : Context) (id : ℕ)
        (key : Bytes) (d : ℕ) (xs : List Bytes) (start stop : ℤ) (old : client.State)
        (queue : List Args) (server : Server client)
        → ctx'.id ≡ some id
        → lookup id server.handlers ≡ some (serving client ctx old queue)
        → IsReady l ctx key server.store.client d
        → IsStored (l.get server.store.client.env d key) xs
        → IsStorable xs
        → InRange start
        → InRange stop
        → (text : Bytes) × (on_handler rt fuel others
              (some ctx')
              (codes "LRANGE" ∷ key ∷ format_int64 (of_ℤ start) ∷ format_int64 (of_ℤ stop) ∷ [])
              server
            ≡ returns (
              record server {
                handlers = insert id (serving client ctx server.store queue) server.handlers;
              },
              write_raw text ∷ [],
            ))
          × (read_array text ≡ some (range xs start stop, []))
    lrange-written fuel others ctx ctx' id key d xs start stop old queue server named found ready
          there h hs he =
        let answered : List Bytes = range xs start stop in
        let kept = serving client ctx server.store queue in
        let read =
          lrange_refines r ctx key server.store.client d xs start stop ready there h hs he in
        let step =
          lrange_step rt s r order score_order server.store.now fuel ctx ctx' key start stop
            server.store.client server.store.client answered queue hs he read in
        (
          format_array answered,
          on_handler-found rt fuel others ctx' id _ server (serving client ctx old queue) named
                found
              ∙ ap (answer rt id server) step
              ∙ ap
                  (λ w.
                    returns (record server { handlers = insert id kept server.handlers }, w ∷ []))
                  (write_result-format_array rt answered),
          read_array-range xs start stop h,
        )
