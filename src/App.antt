-- ===== src/App.antt =====
-- internal/app: the server's table of handlers, with the pool of internal/service/pool.go, and the
-- form of a reply. The handlers share one storage, which a call takes from the server and gives back: a
-- command is one step of the server.
pub mod Serving
pub mod Apart
pub mod Wire
pub mod Process
use keyp.Base.{
  ℕ, zero, suc, ◌≡◌, Bool, true, false, Option, none, some, List, [], ◌∷◌, map, if◌then◌else◌, ◌==◌,
}
use keyp.Bytes.{Bytes, codes}
use keyp.Dict.{Dict, lookup, insert, delete, nat_eq}
use keyp.Domain.{Error, Context, Result}
use keyp.Service.{
  Args, Persister, Runtime, Handler, Outcome, returns, panics, unfinished, new_handler, pool_get,
  clear, error_text,
}
use keyp.Service.Dispatch.{apply}

-- The calls of `redcon.Conn` that write.
pub data Write : Type 0 where
  write_error : Bytes → Write
  write_null : Write
  write_raw : Bytes → Write
  write_bulk : Bytes → Write

-- `isArrayResponse`
abbrev pub is_array_response : Bytes → Bool
is_array_response [] = false
is_array_response (c ∷ response) = c == b'*'

-- The body of the loop over the results.
unfoldable pub write_result : Runtime → Result → Write
write_result rt result = elim result.error [
  | some e ↦ write_error (error_text rt e)
  | none ↦ elim result.response [
    | none ↦ write_null
    | some bytes ↦ if is_array_response bytes then write_raw bytes else write_bulk bytes
  ]
]

-- `Server`, with what its pool holds and the storage behind all handlers. `rcon` is the address at
-- which a redcon server listens.
pub record Server (p : Persister) : Type 0 where
  pub rcon : Option Bytes
  pub handlers : Dict ℕ (Handler p)
  pub pool : List (Handler p)
  pub store : p.State

abbrev pub on_some {ℓ κ} : {A : Type ℓ} {B : Type κ} → Option A → B → (A → B) → B
on_some none b f = b
on_some (some a) b f = f a

module _ {p : Persister} where
  -- `Pool.Get`: a handler that was freed, or a new one.
  unfoldable pub take_handler : List (Handler p) → p.State → Handler p × List (Handler p)
  take_handler [] s = (new_handler s, [])
  take_handler (h ∷ pool) s = (h, pool)

  -- `OnAccept`, with the number that `generateConnectionID` gives.
  unfoldable pub on_accept : ℕ → Server p → Server p × Context
  unfolding take_handler
  on_accept id server =
      let ctx : Context = record { db = some 0; id = some id; done = λ i. none } in
      let (h, pool) = take_handler server.pool server.store in
      (record server { handlers = insert id (pool_get ctx h) server.handlers; pool = pool }, ctx)

  unfoldable pub free_handler : Option (Handler p) → ℕ → Server p → Server p
  free_handler none id server = server
  free_handler (some h) id server = record server {
    handlers = delete id server.handlers;
    pool = clear h ∷ server.pool;
  }

  -- `OnClosed`, by the context of the connection, if it has one.
  unfoldable pub on_closed : Option Context → Server p → Server p
  unfolding free_handler
  on_closed context server =
      on_some context server
        λ ctx. on_some ctx.id server λ id. free_handler (lookup id server.handlers) id server

  -- `NewServer`, on a pool that has made no handler yet (`NewPool`).
  unfoldable pub new_server : p.State → Server p
  new_server s = record { rcon = none; handlers = []; pool = []; store = s }

  -- `getHandler`
  unfoldable pub get_handler : ℕ → Server p → Option (Handler p)
  get_handler id server = lookup id server.handlers

  -- `Close`: the handlers are cleared and forgotten, none goes back to the pool, and the redcon server
  -- is closed.
  unfoldable pub close : Server p → Server p
  close server = record server { handlers = []; rcon = none }

  abbrev pub first_found :
      Option (Handler p) → Server p → Server p × Option (Handler p) → Server p × Option (Handler p)
  first_found none server again = again
  first_found (some h) server again = (server, some h)

  -- The wait for a handler: `others` is what happens on other connections in a millisecond.
  unfoldable pub wait_handler :
      ℕ → (Server p → Server p) → ℕ → Server p → Server p × Option (Handler p)
  unfolding get_handler
  wait_handler zero others id server = (server, none)
  wait_handler (suc n) others id server =
      let again = wait_handler n others id (others server) in
      first_found (get_handler id server) server again

  -- The handler's results are written in their order.
  abbrev pub answer :
      Runtime → ℕ → Server p → Outcome (Handler p × List Result) → Outcome (Server p × List Write)
  answer rt id server (returns (h, results)) = returns (
    record server { handlers = insert id h server.handlers; store = h.storage },
    map (write_result rt) results,
  )
  answer rt id server panics = panics
  answer rt id server unfinished = unfinished

  abbrev pub refuse : Server p → Bytes → Outcome (Server p × List Write)
  refuse server text = returns (server, write_error text ∷ [])

  -- `OnHandler` on a command of a connection.
  unfoldable pub on_handler :
      Runtime
      → ℕ
      → (Server p → Server p)
      → Option Context
      → Args
      → Server p
      → Outcome (Server p × List Write)
  unfolding wait_handler write_result
  on_handler rt fuel others context args server =
      on_some context (refuse server (codes "ERR invalid connection context")) λ ctx.
        on_some ctx.id (refuse server (codes "ERR invalid connection ID")) λ id.
          let (server', found) = wait_handler 10 others id server in
          on_some found (refuse server' (codes "ERR connection not found")) λ h.
            answer rt id server' (apply rt p fuel ctx args (record h { storage = server'.store }))
