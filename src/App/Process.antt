-- ===== src/App/Process.antt =====
-- Start of internal/app/server.go and cmd/keyp/main.go: the life of the process.
pub mod Ends
pub mod Isolation
use keyp.Base.{ℕ, Option, none, some, List, [], ◌∷◌, ◌++◌}
use keyp.Bytes.{Bytes, codes}
use keyp.Dict.{Dict, lookup, insert, delete, nat_eq}
use keyp.Domain.{Error, Context}
use keyp.Lmdb.{Reply, on_reply}
use keyp.Service.{Args, Persister, Runtime, Outcome, returns, panics, unfinished}
use keyp.Service.Dispatch.{and_then}
use keyp.App.{Server, Write, new_server, on_accept, on_closed, on_handler, close}

-- `Config`
pub record Config : Type 0 where
  pub address : Bytes
  pub data_dir : Bytes

-- What happens while redcon listens. A connection is a number, and `accepted` comes with the moment that
-- `generateConnectionID` reads; `elapsed` is what time and the timers do to the storage meanwhile.
pub data Event (p : Persister) : Type 0 where
  accepted : ℕ → ℕ → Event p
  received : ℕ → Args → Event p
  closed : ℕ → Event p
  elapsed : (p.State → p.State) → Event p

-- `redcon.Server`, which is not in the repository: what comes in at an address until listening ends, and
-- the error that `ListenAndServe` then returns.
pub record Redcon (p : Persister) : Type 0 where
  pub traffic : Bytes → List (Event p)
  pub outcome : Bytes → Option Error

-- The server, the contexts that redcon keeps for the connections, and what was written.
pub record Session (p : Persister) : Type 0 where
  pub server : Server p
  pub contexts : Dict ℕ Context
  pub written : List Write

-- How the process ends.
pub data Exit (p : Persister) : Type 0 where
  finished : Server p → Exit p
  fatal : Error → Exit p

abbrev pub config : Config
config = record { address = codes "0.0.0.0:6379"; data_dir = codes "./data" }

module _ {p : Persister} where
  -- The end of `main`: `log.Fatal` ends the process without the deferred `server.Close()`.
  abbrev exit_of : Server p × Option Error → Outcome (Exit p)
  exit_of (server, none) = returns (finished (close server))
  exit_of (server, some e) = returns (fatal e)

module _ (rt : Runtime) (p : Persister) (fuel : ℕ) (others : Server p → Server p) where
  abbrev wrote : Session p → Outcome (Server p × List Write) → Outcome (Session p)
  wrote s (returns (server, writes)) =
      returns (record s { server = server; written = s.written ++ writes })
  wrote s panics = panics
  wrote s unfinished = unfinished

  -- The callback of one event.
  unfoldable pub react : Event p → Session p → Outcome (Session p)
  react (accepted conn id) s =
      let (server, ctx) = on_accept id s.server in
      returns (record s { server = server; contexts = insert conn ctx s.contexts })
  react (received conn args) s =
      wrote s (on_handler rt fuel others (lookup conn s.contexts) args s.server)
  react (closed conn) s = returns (record s {
    server = on_closed (lookup conn s.contexts) s.server;
    contexts = delete conn s.contexts;
  })
  react (elapsed change) s =
      returns (record s { server = record s.server { store = change s.server.store } })

  unfoldable pub serve : List (Event p) → Session p → Outcome (Session p)
  serve [] s = returns s
  serve (e ∷ events) s = and_then rt p (react e s) (serve events)

  -- `Start`: the server as listening leaves it, and the error.
  unfoldable pub start : Redcon p → Config → Server p → Outcome (Server p × Option Error)
  unfolding serve
  start redcon config server =
      and_then rt p
        (serve (redcon.traffic config.address) (record {
          server = record server { rcon = some config.address };
          contexts = [];
          written = [];
        }))
        λ s. returns (s.server, redcon.outcome config.address)

  -- `main`, by what `storage.NewClient` makes of a directory.
  unfoldable pub main : (Bytes → Reply p.State) → Redcon p → Outcome (Exit p)
  unfolding start
  main new_client redcon =
      on_reply (new_client config.data_dir) (λ e. returns (fatal e))
        λ client. and_then rt p (start redcon config (new_server client)) exit_of
