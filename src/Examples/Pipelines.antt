-- ===== src/Examples/Pipelines.antt =====
-- Runs of a connection: a list pushed, read and written to the socket, and a value that a timer removes.
use keyp.Base.{refl, some, none, ◌≡◌, ◌+◌, arith, inl, [], ◌∷◌, ◌++◌, length}
use keyp.Bytes.{codes}
use keyp.Int64.{pos, negsuc, of_ℤ}
use keyp.Decimal.{format_int64}
use keyp.Lmdb.Memory.{memory, Contents, memory-IsStore, memory-IsReliable}
use keyp.Domain.{ok_bytes, new_result}
use keyp.Service.{returns}
use keyp.Service.Dispatch.{apply}
use keyp.Service.Stored.Expiring.{set_ex-get}
use keyp.Storage.{Client}
use keyp.Storage.Expiry.{fire}
use keyp.Service.Commands.{respond}
use keyp.Service.Format.{format_array}
use keyp.Service.Dispatch.Transaction.{apply_all}
use keyp.Service.Stored.{moment}
use keyp.Service.Stored.Commands.{serving}
use keyp.Service.Stored.Pipelines.{rpush-lrange}
use keyp.Storage.Lists.Bounds.{range}
use keyp.Storage.ListCommands.Pushes.{Updates}
use keyp.Service.Format.Reader.{read_array}
use keyp.Dict.{insert, nat_eq}
unfoldable use keyp.Dict.{lookup}
use keyp.App.{Server, on_handler, write_raw}
use keyp.App.Wire.{lrange-written}
use keyp.Bytes.{Bytes}
use keyp.Examples.{ctx, key, two, contents, holding, ready, stored_two, two-IsStorable}
use keyp.Examples.Handlers.{runtime, client}

rpush-lrange_example :
    (t : Contents) × (apply_all runtime client 5 ctx
        ((codes "RPUSH" ∷ key ∷ codes "d" ∷ [])
          ∷ (codes "LRANGE"
              ∷ key
              ∷ format_int64 (of_ℤ (pos 0))
              ∷ format_int64 (of_ℤ (negsuc 0))
              ∷ [])
          ∷ [])
        (serving client ctx (moment 100 (holding contents)) [])
      ≡ returns (
        serving client ctx (moment 100 (holding t)) [],
        respond (format_int64 (length two + 1))
            ∷ respond (format_array (range (two ++ codes "d" ∷ []) (pos 0) (negsuc 0)))
            ∷ [],
      ))
    × Updates memory contents 1 key (two ++ codes "d" ∷ []) t
rpush-lrange_example =
    rpush-lrange runtime memory-IsStore memory-IsReliable (λ xs. xs) (λ d. d) 100 5 ctx ctx key
      (holding contents) 1 two (codes "d") [] (pos 0) (negsuc 0) [] (ready contents)
      (inl stored_two) two-IsStorable (omega arith, tt) (omega arith) (omega arith) (omega arith)

set_ex-get_example :
    (c' : Client memory) × (apply runtime client 5 ctx
        (codes "SET" ∷ key ∷ codes "v" ∷ codes "EX" ∷ format_int64 10 ∷ [])
        (serving client ctx (moment 100 (holding contents)) [])
      ≡ returns (serving client ctx (moment 100 c') [], respond ok_bytes ∷ []))
    × (apply runtime client 5 ctx (codes "GET" ∷ key ∷ []) (serving client ctx (moment 103 c') [])
        ≡ returns (serving client ctx (moment 103 c') [], respond (codes "v") ∷ []))
    × (apply runtime client 5 ctx
          (codes "GET" ∷ key ∷ [])
          (serving client ctx (moment 110 (fire memory (holding contents).next_timer c')) [])
        ≡ returns (
          serving client ctx (moment 110 (fire memory (holding contents).next_timer c')) [],
          new_result ∷ [],
        ))
set_ex-get_example =
    set_ex-get runtime memory-IsStore memory-IsReliable (λ xs. xs) (λ d. d) 100 103 110 5 ctx ctx
      key (codes "v") 10 (holding contents) 1 [] (ready contents) (omega arith)

abbrev server : Server client
server = record {
  rcon = none;
  handlers = (7, serving client ctx (moment 100 (holding contents)) []) ∷ [];
  pool = [];
  store = moment 100 (holding contents);
}

lrange-written_example :
    (text : Bytes) × (on_handler runtime 5
        (λ k. k)
        (some ctx)
        (codes "LRANGE" ∷ key ∷ format_int64 (of_ℤ (pos 0)) ∷ format_int64 (of_ℤ (negsuc 0)) ∷ [])
        server
      ≡ returns (
        record server { handlers = insert 7 (serving client ctx server.store []) server.handlers },
        write_raw text ∷ [],
      ))
    × (read_array text ≡ some (range two (pos 0) (negsuc 0), []))
unfolding lookup
lrange-written_example =
    lrange-written runtime memory-IsStore memory-IsReliable (λ xs. xs) (λ d. d) 5 (λ k. k) ctx ctx 7
      key 1 two (pos 0) (negsuc 0) (moment 100 (holding contents)) [] server refl refl
      (ready contents) (inl stored_two) two-IsStorable (omega arith) (omega arith)
