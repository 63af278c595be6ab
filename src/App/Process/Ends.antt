-- ===== src/App/Process/Ends.antt =====
-- The life of the process, from main to its end, whatever connections come and send.
use keyp.Base.{ℕ, ◌≡◌, Option, none, some, List, [], ◌∷◌, All}
use keyp.Bytes.{Bytes}
use keyp.Dict.{lookup, nat_eq}
use keyp.Domain.{Error}
use keyp.Lmdb.{Reply, err}
use keyp.Service.{Persister, Runtime, Outcome, returns, panics, unfinished}
use keyp.Service.Dispatch.{and_then}
use keyp.Service.Dispatch.Tables.{IsDo}
use keyp.App.{Server, Write}
use keyp.App.Process.{
  Event, accepted, received, closed, elapsed, Session, Exit, finished, fatal, wrote, react, serve,
}
use keyp.App.Serving.{
  IsServing, GoesOn, went_on, hangs, on_accept-IsServing, on_closed-IsServing, on_handler-GoesOn,
}

module _ (rt : Runtime) (p : Persister) (Excuse : Type 0) where
  -- DO needs an excuse.
  abbrev pub IsPlain : Event p → Type 0
  IsPlain (received conn args) = IsDo rt p args → Excuse
  IsPlain _ = Unit

  -- No panic, an end unless there is an excuse, and a server that can go on.
  pub data ServesOn : Outcome (Session p) → Type 0 where
    served : {s : Session p} → IsServing rt Excuse s.server → ServesOn (returns s)
    hung : Excuse → ServesOn unfinished

  -- How the process ends: an error of the start, or of listening, is fatal; without one the handlers
  -- are forgotten and the listener closed; and it ends, unless there is an excuse.
  pub data Ends (opened : Reply p.State) (stopped : Option Error) : Outcome (Exit p) → Type 0 where
    no_client : (e : Error) → opened ≡ err e → Ends opened stopped (returns (fatal e))
    not_listening : (e : Error) → stopped ≡ some e → Ends opened stopped (returns (fatal e))
    left :
        (server : Server p)
        → stopped ≡ none
        → server.handlers ≡ []
        → server.rcon ≡ none
        → Ends opened stopped (returns (finished server))
    runs : Excuse → Ends opened stopped unfinished

module _ (rt : Runtime) (p : Persister) (Excuse : Type 0) (fuel : ℕ) (others : Server p → Server p)
    (fuelled : fuel ≡ 0 → Excuse)
    (keep : (k : Server p) → IsServing rt Excuse k → IsServing rt Excuse (others k)) where
  wrote-ServesOn :
      (s : Session p) (o : Outcome (Server p × List Write))
      → GoesOn rt Excuse o
      → ServesOn rt p Excuse (wrote rt p fuel others s o)
  wrote-ServesOn s (returns (server, writes)) (went_on c) = served c
  wrote-ServesOn s panics c = elim c [ ]
  wrote-ServesOn s unfinished (hangs why) = hung why

  react-ServesOn :
      (e : Event p) (s : Session p)
      → IsPlain rt p Excuse e
      → IsServing rt Excuse s.server
      → ServesOn rt p Excuse (react rt p fuel others e s)
  unfolding react
  react-ServesOn (accepted conn id) s plain c =
      served (on_accept-IsServing rt Excuse id s.server c).0
  react-ServesOn (received conn args) s plain c = wrote-ServesOn s _ (
      on_handler-GoesOn rt Excuse fuel others (lookup conn s.contexts) args s.server fuelled plain
        keep c)
  react-ServesOn (closed conn) s plain c =
      served (on_closed-IsServing rt Excuse (lookup conn s.contexts) s.server c)
  react-ServesOn (elapsed change) s plain c =
      served (record { serving = c.serving; spare = c.spare })

  then-ServesOn :
      (o : Outcome (Session p)) {k : Session p → Outcome (Session p)}
      → ServesOn rt p Excuse o
      → ((s : Session p) → IsServing rt Excuse s.server → ServesOn rt p Excuse (k s))
      → ServesOn rt p Excuse (and_then rt p o k)
  then-ServesOn (returns s) (served c) each = each s c
  then-ServesOn panics c each = elim c [ ]
  then-ServesOn unfinished (hung why) each = hung why

  pub serve-ServesOn :
      (events : List (Event p)) (s : Session p)
      → All (IsPlain rt p Excuse) events
      → IsServing rt Excuse s.server
      → ServesOn rt p Excuse (serve rt p fuel others events s)
  unfolding serve
  serve-ServesOn [] s plain c = served c
  serve-ServesOn (e ∷ events) s plain c =
      then-ServesOn (react rt p fuel others e s) (react-ServesOn e s plain.0 c)
        λ s' c'. serve-ServesOn events s' plain.1 c'
