-- ===== src/App/Process/Isolation.antt =====
-- Connections side by side: a handler's queue and mode while other connections come, send and go.
use keyp.Base.{ℕ, ◌≡◌, refl, ◌∙◌, arith, false, some, List, [], ◌∷◌, All, ◌==◌, ap}
use keyp.Base.{Bool-cases, inl, inr}
use keyp.Dict.{Dict, lookup, insert, delete, nat_eq}
use keyp.Dict.Laws.{lookup-insert, lookup-delete}
use keyp.Domain.{Context}
use keyp.Service.{Args, Persister, Runtime, Handler, Outcome, returns, panics, unfinished}
use keyp.Service.Dispatch.{and_then, apply}
unfoldable use keyp.App.{on_accept}
use keyp.App.{Server, Write, on_handler, answer}
use keyp.App.Apart.{
  IsOther, Same, Leaves, leaves, fails, hangs, on_accept-Same, on_closed-Same, on_handler-Leaves,
  on_handler-found,
}
use keyp.App.Process.{Event, accepted, received, closed, elapsed, Session, wrote, react, serve}
use keyp.App.Process.Ends.{IsPlain, ServesOn, served, hung, serve-ServesOn}
use keyp.App.Serving.{IsServing}
use mathlib.Core.Option.{some_inj}
use mathlib.Core.Path.{subst}

-- A context that a write or a removal at another connection leaves or gives is still another's.
insert-IsOther :
    (id c : ℕ) (x : Context) (contexts : Dict ℕ Context) (k : ℕ)
    → IsOther id (some x)
    → IsOther id (lookup k contexts)
    → IsOther id (lookup k (insert c x contexts))
insert-IsOther id c x contexts k new old = elim (Bool-cases (k == c)) [
  | inl same ↦ rw (lookup-insert {K = ℕ} c k x contexts, same) new
  | inr other ↦ rw (lookup-insert {K = ℕ} c k x contexts, other) old
]

delete-IsOther :
    (id c : ℕ) (contexts : Dict ℕ Context) (k : ℕ)
    → IsOther id (lookup k contexts)
    → IsOther id (lookup k (delete c contexts))
delete-IsOther id c contexts k old = elim (Bool-cases (k == c)) [
  | inl same ↦
      rw (lookup-delete {K = ℕ} c k contexts, same)
        λ x i found known. absurd (ground (arith, found))
  | inr other ↦ rw (lookup-delete {K = ℕ} c k contexts, other) old
]

module _ {p : Persister} where
  -- A connection has its context and its number, which no other connection has.
  pub record Owns (conn : ℕ) (ctx : Context) (id : ℕ) (s : Session p) : Type 0 where
    pub held : lookup conn s.contexts ≡ some ctx
    pub named : ctx.id ≡ some id
    pub alone : (c : ℕ) → (conn == c) ≡ false → IsOther id (lookup c s.contexts)

  -- An event of another connection, or of no connection.
  abbrev pub IsElsewhere : ℕ → ℕ → Event p → Type 0
  IsElsewhere conn id (accepted c i) = ((conn == c) ≡ false) × ((id == i) ≡ false)
  IsElsewhere conn id (received c args) = (conn == c) ≡ false
  IsElsewhere conn id (closed c) = (conn == c) ≡ false
  IsElsewhere conn id (elapsed change) = Unit

  new-IsOther :
      (id i : ℕ) (server : Server p) → (id == i) ≡ false → IsOther id (some (on_accept i server).1)
  unfolding on_accept
  new-IsOther id i server other x j given known =
      let same : i ≡ j = some_inj.0 (ap (λ c. c.id) (some_inj.0 given) ∙ known) in
      subst (λ k. (id == k) ≡ false) same other

  accepted-Owns :
      (conn : ℕ) (ctx : Context) (id c i : ℕ) (server : Server p) (s : Session p)
      → (conn == c) ≡ false
      → (id == i) ≡ false
      → Owns conn ctx id s
      → Owns conn ctx id
          (record s { server = server; contexts = insert c (on_accept i s.server).1 s.contexts })
  accepted-Owns conn ctx id c i server s away other o = record {
    held = lookup-insert {K = ℕ} c conn (on_accept i s.server).1 s.contexts ∙ rw away o.held;
    named = o.named;
    alone = λ k far.
        insert-IsOther id c (on_accept i s.server).1 s.contexts k (new-IsOther id i s.server other)
          (o.alone k far);
  }

  closed-Owns :
      (conn : ℕ) (ctx : Context) (id c : ℕ) (server : Server p) (s : Session p)
      → (conn == c) ≡ false
      → Owns conn ctx id s
      → Owns conn ctx id (record s { server = server; contexts = delete c s.contexts })
  closed-Owns conn ctx id c server s away o = record {
    held = lookup-delete {K = ℕ} c conn s.contexts ∙ rw away o.held;
    named = o.named;
    alone = λ k far. delete-IsOther id c s.contexts k (o.alone k far);
  }

  same-Owns :
      (conn : ℕ) (ctx : Context) (id : ℕ) (s s' : Session p)
      → s'.contexts ≡ s.contexts
      → Owns conn ctx id s
      → Owns conn ctx id s'
  same-Owns conn ctx id s s' same o = record {
    held = rw same o.held;
    named = o.named;
    alone = λ k far. rw same (o.alone k far);
  }

module _ (rt : Runtime) (p : Persister) (fuel : ℕ) (others : Server p → Server p) (conn : ℕ)
    (ctx : Context) (id : ℕ) (apart : (k : Server p) → Same id k (others k)) where
  -- Where events of other connections end, the connection has its context and its handler as before.
  data Spares (s : Session p) : Outcome (Session p) → Type 0 where
    spares :
        {s' : Session p} → Owns conn ctx id s' → Same id s.server s'.server → Spares s (returns s')
    stops : Spares s panics
    never : Spares s unfinished

  wrote-Spares :
      (s : Session p) (o : Outcome (Server p × List Write))
      → Owns conn ctx id s
      → Leaves rt fuel others id apart s.server o
      → Spares s (wrote rt p fuel others s o)
  wrote-Spares s (returns (server, writes)) owns (leaves same) =
      spares (same-Owns conn ctx id s _ refl owns) same
  wrote-Spares s panics owns fails = stops
  wrote-Spares s unfinished owns hangs = never

  react-Spares :
      (e : Event p) (s : Session p)
      → IsElsewhere conn id e
      → Owns conn ctx id s
      → Spares s (react rt p fuel others e s)
  unfolding react
  react-Spares (accepted c i) s away o =
      spares (accepted-Owns conn ctx id c i _ s away.0 away.1 o)
        (on_accept-Same id i s.server away.1)
  react-Spares (received c args) s away o = wrote-Spares s _ o (
      on_handler-Leaves rt fuel others id apart (lookup c s.contexts) args s.server
        (o.alone c away))
  react-Spares (closed c) s away o =
      spares (closed-Owns conn ctx id c _ s away o)
        (on_closed-Same id (lookup c s.contexts) s.server (o.alone c away))
  react-Spares (elapsed change) s away o = spares (same-Owns conn ctx id s _ refl o) refl

  from-Spares :
      (s s' : Session p) (o : Outcome (Session p))
      → Same id s.server s'.server
      → Spares s' o
      → Spares s o
  from-Spares s s' (returns s'') same (spares owns later) = spares owns (later ∙ same)
  from-Spares s s' panics same stops = stops
  from-Spares s s' unfinished same never = never

  then-Spares :
      (s : Session p) (o : Outcome (Session p)) {k : Session p → Outcome (Session p)}
      → Spares s o
      → ((s' : Session p) → Owns conn ctx id s' → Spares s' (k s'))
      → Spares s (and_then rt p o k)
  then-Spares s (returns s') (spares owns same) each = from-Spares s s' _ same (each s' owns)
  then-Spares s panics stops each = stops
  then-Spares s unfinished never each = never

  serve-Spares :
      (events : List (Event p)) (s : Session p)
      → All (IsElsewhere conn id) events
      → Owns conn ctx id s
      → Spares s (serve rt p fuel others events s)
  unfolding serve
  serve-Spares [] s away o = spares o refl
  serve-Spares (e ∷ events) s away o =
      then-Spares s (react rt p fuel others e s) (react-Spares e s away.0 o)
        λ s' o'. serve-Spares events s' away.1 o'

  called_found :
      (args : Args) (s : Session p) (h : Handler p)
      → Owns conn ctx id s
      → lookup id s.server.handlers ≡ some h
      → on_handler rt fuel others (lookup conn s.contexts) args s.server
        ≡ answer rt id s.server (apply rt p fuel ctx args (record h { storage = s.server.store }))
  called_found args s h o found =
      ap (λ context. on_handler rt fuel others context args s.server) o.held
      ∙ on_handler-found rt fuel others ctx id args s.server h o.named found

  spared :
      (args : Args) (s : Session p) (h : Handler p) (o : Outcome (Session p))
      → lookup id s.server.handlers ≡ some h
      → ServesOn rt p ⊥ o
      → Spares s o
      → (s' : Session p) × (o ≡ returns s')
        × (lookup id s'.server.handlers ≡ some h)
        × (on_handler rt fuel others (lookup conn s'.contexts) args s'.server
            ≡ answer rt id s'.server
                (apply rt p fuel ctx args (record h { storage = s'.server.store })))
  spared args s h (returns s') found (served c) (spares owns same) =
      (s', refl, same ∙ found, called_found args s' h owns (same ∙ found))
  spared args s h panics found ends stops = elim ends [ ]
  spared args s h unfinished found (hung why) never = absurd why

  -- Take a connection with a context and a number that no other connection has, and a handler,
  -- where every handler in the table can serve and every handler in the pool is fresh. Events of
  -- other connections, none a command DO, with fuel, end without a panic, and the handler stays
  -- as it is, with its queue and its mode: the next command of the connection is answered as by
  -- that handler, on the storage that the events left. What happens while a command waits for its
  -- handler keeps the state of the server and this handler.
  pub serve-Isolated :
      (events : List (Event p)) (s : Session p) (h : Handler p) (args : Args)
      → (fuel ≡ 0 → ⊥)
      → ((k : Server p) → IsServing rt ⊥ k → IsServing rt ⊥ (others k))
      → All (IsPlain rt p ⊥) events
      → All (IsElsewhere conn id) events
      → IsServing rt ⊥ s.server
      → Owns conn ctx id s
      → lookup id s.server.handlers ≡ some h
      → (s' : Session p) × (serve rt p fuel others events s ≡ returns s')
        × (lookup id s'.server.handlers ≡ some h)
        × (on_handler rt fuel others (lookup conn s'.contexts) args s'.server
            ≡ answer rt id s'.server
                (apply rt p fuel ctx args (record h { storage = s'.server.store })))
  serve-Isolated events s h args fuelled keep plain away c o found =
      spared args s h (serve rt p fuel others events s) found
        (serve-ServesOn rt p ⊥ fuel others fuelled keep events s plain c)
        (serve-Spares events s away o)
