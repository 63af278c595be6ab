-- ===== src/Examples/Connections.antt =====
-- Runs of the server: a connection that comes, sends a command and goes.
use keyp.Base.{arith, none, some, []}
unfoldable use keyp.Dict.{lookup}
use keyp.Dict.{nat_eq}
use keyp.App.{Server, on_accept, on_handler}
use keyp.App.Serving.{IsServing, GoesOn, on_accept-IsServing, on_handler-GoesOn}
use keyp.Service.Stored.{moment}
use keyp.Examples.{ctx, contents, holding}
use keyp.Examples.Handlers.{runtime, client, get_args, get_is_not_do}

abbrev idle : Server client
idle = record { rcon = none; handlers = []; pool = []; store = moment 100 (holding contents) }

idle-IsServing : IsServing runtime ⊥ idle
unfolding lookup
idle-IsServing = record { serving = λ id h found. absurd (ground (arith, found)); spare = tt }

abbrev connected : Server client
connected = (on_accept 7 idle).0

connected-IsServing : IsServing runtime ⊥ connected
connected-IsServing = (on_accept-IsServing runtime ⊥ 7 idle idle-IsServing).0

on_handler-GoesOn_example :
    GoesOn runtime ⊥ (on_handler runtime 5 (λ k. k) (some ctx) get_args connected)
on_handler-GoesOn_example =
    on_handler-GoesOn runtime ⊥ 5 (λ k. k) (some ctx) get_args connected
      (λ none_left. absurd (omega arith)) get_is_not_do (λ k c. c) connected-IsServing
