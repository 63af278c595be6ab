-- ===== src/App/Serving.antt =====
-- Connections that come, send commands and go: what the server's table and its pool hold.
use keyp.Base.{
  ℕ, zero, suc, ◌≡◌, refl, sym, ◌∙◌, arith, false, Option, none, some, List, [], ◌∷◌, All,
}
use keyp.Base.{Option-cases, inl, inr, ==_refl}
use keyp.Bytes.{codes}
use keyp.Dict.{Dict, lookup, insert, delete, nat_eq}
use keyp.Dict.Laws.{lookup-insert, found_after_insert, found_after_delete}
use keyp.Domain.{Context, Result}
use keyp.Service.{
  Args, Persister, Runtime, Handler, Outcome, returns, panics, unfinished, new_handler, pool_get,
  clear,
}
use keyp.Service.Dispatch.{apply}
use keyp.Service.Dispatch.Queue.{IsQueued, IsConsistent, EndsWell, ended, never_ends}
use keyp.Service.Dispatch.Tables.{IsDo}
use keyp.Service.Dispatch.Serves.{apply-EndsWell}
use keyp.App.{
  Server, Write, take_handler, on_accept, free_handler, on_closed, wait_handler, on_handler,
  on_some, answer, refuse, first_found,
}
use mathlib.Core.Path.{subst}

module _ (rt : Runtime) {p : Persister} where
  -- Outside a transaction, with nothing queued.
  abbrev pub IsFresh : Handler p → Type 0
  IsFresh h = (h.mult_args ≡ []) × (h.mult_enabled ≡ false)

module _ (rt : Runtime) {p : Persister} (Excuse : Type 0) where
  -- Every handler of a connection can serve, and every handler in the pool is fresh.
  pub record IsServing (server : Server p) : Type 0 where
    pub serving :
        (id : ℕ) (h : Handler p) → lookup id server.handlers ≡ some h → IsConsistent rt p Excuse h
    pub spare : All (IsFresh rt) server.pool

  -- A table with one more consistent handler.
  insert-serving :
      (id : ℕ) (h : Handler p) (handlers : Dict ℕ (Handler p))
      → IsConsistent rt p Excuse h
      → ((i : ℕ) (k : Handler p) → lookup i handlers ≡ some k → IsConsistent rt p Excuse k)
      → (i : ℕ) (k : Handler p) → lookup i (insert id h handlers) ≡ some k
      → IsConsistent rt p Excuse k
  insert-serving id h handlers c old i k found =
      elim (found_after_insert {K = ℕ} id i h k handlers found) [
        | inl (_, same) ↦ subst (λ x. IsConsistent rt p Excuse x) same c
        | inr (_, before) ↦ old i k before
      ]

  delete-serving :
      (id : ℕ) (handlers : Dict ℕ (Handler p))
      → ((i : ℕ) (k : Handler p) → lookup i handlers ≡ some k → IsConsistent rt p Excuse k)
      → (i : ℕ) (k : Handler p) → lookup i (delete id handlers) ≡ some k
      → IsConsistent rt p Excuse k
  delete-serving id handlers old i k found =
      old i k (found_after_delete {K = ℕ} id i k handlers found).1

  taken-IsFresh :
      (pool : List (Handler p)) (s : p.State)
      → All (IsFresh rt) pool
      → IsFresh rt (take_handler pool s).0 × All (IsFresh rt) (take_handler pool s).1
  unfolding take_handler new_handler
  taken-IsFresh [] s h = ((refl, refl), tt)
  taken-IsFresh (k ∷ pool) s h = (h.0, h.1)

  fresh-IsConsistent :
      (ctx : Context) (h : Handler p) → IsFresh rt h → IsConsistent rt p Excuse (pool_get ctx h)
  unfolding pool_get
  fresh-IsConsistent ctx h fresh = record {
    live = (ctx, refl);
    queue = subst (λ q. All (IsQueued rt p Excuse) q) (sym fresh.0) tt;
  }

  pub on_accept-IsServing :
      (id : ℕ) (server : Server p)
      → IsServing server
      → IsServing (on_accept id server).0
        × ((h : Handler p) × (lookup id (on_accept id server).0.handlers ≡ some h)
            × IsFresh rt h
            × (h.context ≡ some (on_accept id server).1))
  unfolding on_accept pool_get
  on_accept-IsServing id server c =
      let ctx : Context = record { db = some 0; id = some id; done = λ i. none } in
      let (fresh, rest) = taken-IsFresh server.pool server.store c.spare in
      let h : Handler p = (take_handler server.pool server.store).0 in
      (
        record {
          serving =
              insert-serving id (pool_get ctx h) server.handlers (fresh-IsConsistent ctx h fresh)
                c.serving;
          spare = rest;
        },
        (
          pool_get ctx h,
          lookup-insert {K = ℕ} id id (pool_get ctx h) server.handlers ∙ rw (==_refl id) refl,
          fresh,
          refl,
        ),
      )

  free_handler-IsServing :
      (o : Option (Handler p)) (id : ℕ) (server : Server p)
      → IsServing server
      → IsServing (free_handler o id server)
  unfolding free_handler clear
  free_handler-IsServing none id server c = c
  free_handler-IsServing (some h) id server c = record {
    serving = delete-serving id server.handlers c.serving;
    spare = ((refl, refl), c.spare);
  }

  -- Where every handler in the table can serve and every handler in the pool is fresh, this holds
  -- after OnClosed, which clears the handler before it goes to the pool.
  pub on_closed-IsServing :
      (context : Option Context) (server : Server p)
      → IsServing server
      → IsServing (on_closed context server)
  unfolding on_closed
  on_closed-IsServing none server c = c
  on_closed-IsServing (some ctx) server c = elim (Option-cases ctx.id) [
    | inl no_id ↦ rw no_id c
    | inr (id, known) ↦ rw known (free_handler-IsServing (lookup id server.handlers) id server c)
  ]

  -- The call of a command ends in no panic, it returns unless there is an excuse, and where it returns
  -- the server can go on.
  pub data GoesOn : Outcome (Server p × List Write) → Type 0 where
    went_on :
        {server : Server p} {writes : List Write}
        → IsServing server
        → GoesOn (returns (server, writes))
    hangs : Excuse → GoesOn unfinished

  -- The server and the handler after the wait.
  abbrev Waited : Server p × Option (Handler p) → Type 0
  Waited (server, o) =
      IsServing server × ((h : Handler p) → o ≡ some h → IsConsistent rt p Excuse h)

  first_found-Waited :
      (o : Option (Handler p)) (server : Server p) (again : Server p × Option (Handler p))
      → IsServing server
      → ((h : Handler p) → o ≡ some h → IsConsistent rt p Excuse h)
      → Waited again
      → Waited (first_found o server again)
  first_found-Waited none server again c each w = w
  first_found-Waited (some h) server again c each w = (c, each)

  wait_handler-Waited :
      (n : ℕ) (others : Server p → Server p) (id : ℕ) (server : Server p)
      → ((k : Server p) → IsServing k → IsServing (others k))
      → IsServing server
      → Waited (wait_handler n others id server)
  unfolding wait_handler
  wait_handler-Waited zero others id server keep c = (c, λ h found. absurd (ground (arith, found)))
  wait_handler-Waited (suc n) others id server keep c =
      first_found-Waited (lookup id server.handlers) server _ c (c.serving id)
        (wait_handler-Waited n others id (others server) keep (keep server c))

  answer-GoesOn :
      (id : ℕ) (server : Server p) (o : Outcome (Handler p × List Result))
      → IsServing server
      → EndsWell rt p Excuse o
      → GoesOn (answer rt id server o)
  answer-GoesOn id server (returns (h, results)) c (ended good) =
      went_on
        (record { serving = insert-serving id h server.handlers good c.serving; spare = c.spare })
  answer-GoesOn id server panics c well = elim well [ ]
  answer-GoesOn id server unfinished c (never_ends why) = hangs why

  called-GoesOn :
      (fuel : ℕ) (ctx : Context) (id : ℕ) (args : Args) (waited : Server p × Option (Handler p))
      → (fuel ≡ 0 → Excuse)
      → (IsDo rt p args → Excuse)
      → Waited waited
      → GoesOn (
          on_some waited.1 (refuse waited.0 (codes "ERR connection not found")) λ h.
            answer rt id waited.0
              (apply rt p fuel ctx args (record h { storage = waited.0.store })))
  called-GoesOn fuel ctx id args (server, none) fuelled why w = went_on w.0
  called-GoesOn fuel ctx id args (server, some h) fuelled why w =
      let c = w.1 h refl in
      answer-GoesOn id server _ w.0 (
        apply-EndsWell rt p Excuse fuel ctx args (record h { storage = server.store }) fuelled why
          (record { live = c.live; queue = c.queue }))

  on_some-GoesOn :
      (o : Option ℕ) {bad : Outcome (Server p × List Write)}
      {f : ℕ → Outcome (Server p × List Write)}
      → GoesOn bad
      → ((id : ℕ) → GoesOn (f id))
      → GoesOn (on_some o bad f)
  on_some-GoesOn none b each = b
  on_some-GoesOn (some id) b each = each id

  -- Where every handler in the table of the server can serve and every handler in its pool is
  -- fresh: a command of any connection ends in no panic, and where it returns this holds again,
  -- if other connections keep it while the command waits for its handler. It fails to return only
  -- with an excuse, which is needed for no fuel and for a command DO.
  pub on_handler-GoesOn :
      (fuel : ℕ) (others : Server p → Server p) (context : Option Context) (args : Args)
      (server : Server p)
      → (fuel ≡ 0 → Excuse)
      → (IsDo rt p args → Excuse)
      → ((k : Server p) → IsServing k → IsServing (others k))
      → IsServing server
      → GoesOn (on_handler rt fuel others context args server)
  unfolding on_handler
  on_handler-GoesOn fuel others none args server fuelled why keep c = went_on c
  on_handler-GoesOn fuel others (some ctx) args server fuelled why keep c =
      on_some-GoesOn ctx.id (went_on c) λ id.
        called-GoesOn fuel ctx id args (wait_handler 10 others id server) fuelled why
          (wait_handler-Waited 10 others id server keep c)
