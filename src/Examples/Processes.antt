-- ===== src/Examples/Processes.antt =====
-- Runs of the process: the environment that NewClient opens, and a connection from its start to its end.
use keyp.Base.{Bool, true, false, none, List, [], ◌∷◌}
use keyp.Lmdb.{Reply, ok, err}
use keyp.Service.Stored.{Clocked, moment}
use keyp.Lmdb.Memory.{memory, memory-IsReliable}
use keyp.Storage.{Client, sel}
use keyp.Storage.Selection.{IsCached, sel-IsCached}
use keyp.Storage.Opening.{Opener}
use keyp.App.Process.{Event, accepted, received, closed, elapsed, Redcon}
use keyp.App.Process.Ends.{Ends}
use keyp.Examples.{ctx, contents, holding}
use keyp.Examples.Handlers.{client, get_args}

-- An environment is open or not, and holds nothing.
abbrev opener : Opener memory
opener = record {
  Handle = Bool;
  mkdir_all = λ dir perm. none;
  new_env = (false, none);
  set_max_dbs = λ n h. (h, none);
  set_map_size = λ n h. (h, none);
  set_max_readers = λ n h. (h, none);
  open_env = λ dir flags perm h. (true, none);
  close_env = λ h. false;
  contents = λ h. [];
}

sel-IsCached_example :
    IsCached memory ctx
      (holding contents)
      (sel memory ctx (holding contents)).0
      (sel memory ctx (holding contents)).1
sel-IsCached_example = sel-IsCached memory-IsReliable ctx (holding contents)

-- What NewClient opens, with the clock.
abbrev clocked : Reply (Client memory) → Reply (Clocked memory)
clocked (ok c) = ok (moment 100 c)
clocked (err e) = err e

abbrev events : List (Event client)
events =
    accepted 1 7
    ∷ received 1 get_args
    ∷ elapsed (λ s. record s { now = 105 })
    ∷ received 2 get_args
    ∷ closed 1
    ∷ []

abbrev redcon : Redcon client
redcon = record { traffic = λ address. events; outcome = λ address. none }
