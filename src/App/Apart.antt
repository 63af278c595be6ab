-- ===== src/App/Apart.antt =====
-- Connections side by side: what OnAccept, OnClosed and OnHandler of one do to the handlers of others.
use keyp.Base.{ℕ, zero, suc, ◌≡◌, refl, ◌∙◌, false, Option, none, some, List, ◌==◌}
use keyp.Base.{Option-cases, inl, inr}
use keyp.Bytes.{codes}
use keyp.Dict.{Dict, lookup, insert, nat_eq}
use keyp.Dict.Laws.{lookup-insert, lookup-delete}
use keyp.Domain.{Context, Result}
use keyp.Service.{Args, Persister, Runtime, Handler, Outcome, returns, panics, unfinished}
use keyp.Service.Dispatch.{apply}
use keyp.App.{
  Server, Write, on_accept, free_handler, on_closed, get_handler, wait_handler, on_handler, on_some,
  answer, refuse,
}

-- The context of a connection is not the one of the number `id`.
abbrev pub IsOther : ℕ → Option Context → Type 0
IsOther id context = (x : Context) (i : ℕ) → context ≡ some x → x.id ≡ some i → (id == i) ≡ false

module _ {p : Persister} where
  -- The handler with a number stays as it is.
  abbrev pub Same : ℕ → Server p → Server p → Type 0
  Same id server server' = lookup id server'.handlers ≡ lookup id server.handlers

  insert-Same :
      (id i : ℕ) (h : Handler p) (handlers : Dict ℕ (Handler p))
      → (id == i) ≡ false
      → lookup id (insert i h handlers) ≡ lookup id handlers
  insert-Same id i h handlers other = lookup-insert {K = ℕ} i id h handlers ∙ rw other refl

  pub on_accept-Same :
      (id i : ℕ) (server : Server p) → (id == i) ≡ false → Same id server (on_accept i server).0
  unfolding on_accept
  on_accept-Same id i server other = insert-Same id i _ server.handlers other

  free_handler-Same :
      (id i : ℕ) (o : Option (Handler p)) (server : Server p)
      → (id == i) ≡ false
      → Same id server (free_handler o i server)
  unfolding free_handler
  free_handler-Same id i none server other = refl
  free_handler-Same id i (some h) server other =
      lookup-delete {K = ℕ} i id server.handlers ∙ rw other refl

  pub on_closed-Same :
      (id : ℕ) (context : Option Context) (server : Server p)
      → IsOther id context
      → Same id server (on_closed context server)
  unfolding on_closed
  on_closed-Same id none server other = refl
  on_closed-Same id (some ctx) server other = elim (Option-cases ctx.id) [
    | inl no_id ↦ rw no_id refl
    | inr (i, known) ↦
        rw known (free_handler-Same id i (lookup i server.handlers) server (other ctx i refl known))
  ]

module _ (rt : Runtime) {p : Persister} (fuel : ℕ) (others : Server p → Server p) (id : ℕ)
    (apart : (k : Server p) → Same id k (others k)) where
  -- A command of another connection that returns leaves the handler as it is.
  pub data Leaves (server : Server p) : Outcome (Server p × List Write) → Type 0 where
    leaves :
        {server' : Server p} {writes : List Write}
        → Same id server server'
        → Leaves server (returns (server', writes))
    fails : Leaves server panics
    hangs : Leaves server unfinished

  wait_handler-Same :
      (n i : ℕ) (server : Server p) → Same id server (wait_handler n others i server).0
  unfolding wait_handler
  wait_handler-Same zero i server = refl
  wait_handler-Same (suc n) i server = elim (Option-cases (get_handler i server)) [
    | inl missing ↦ rw missing (wait_handler-Same n i (others server) ∙ apart server)
    | inr (h, found) ↦ rw found refl
  ]

  answer-Leaves :
      (i : ℕ) (server server' : Server p) (o : Outcome (Handler p × List Result))
      → (id == i) ≡ false
      → Same id server server'
      → Leaves server (answer rt i server' o)
  answer-Leaves i server server' (returns (h, results)) other same =
      leaves (insert-Same id i h server'.handlers other ∙ same)
  answer-Leaves i server server' panics other same = fails
  answer-Leaves i server server' unfinished other same = hangs

  called-Leaves :
      (i : ℕ) (ctx : Context) (args : Args) (server : Server p)
      (waited : Server p × Option (Handler p))
      → (id == i) ≡ false
      → Same id server waited.0
      → Leaves server (
          on_some waited.1 (refuse waited.0 (codes "ERR connection not found")) λ h.
            answer rt i waited.0 (apply rt p fuel ctx args (record h { storage = waited.0.store })))
  called-Leaves i ctx args server (server', none) other same = leaves same
  called-Leaves i ctx args server (server', some h) other same =
      answer-Leaves i server server' _ other same

  on_some-Leaves :
      (o : Option ℕ) {server : Server p} {bad : Outcome (Server p × List Write)}
      {f : ℕ → Outcome (Server p × List Write)}
      → Leaves server bad
      → ((i : ℕ) → o ≡ some i → Leaves server (f i))
      → Leaves server (on_some o bad f)
  on_some-Leaves none b each = b
  on_some-Leaves (some i) b each = each i refl

  pub on_handler-Leaves :
      (context : Option Context) (args : Args) (server : Server p)
      → IsOther id context
      → Leaves server (on_handler rt fuel others context args server)
  unfolding on_handler
  on_handler-Leaves none args server other = leaves refl
  on_handler-Leaves (some ctx) args server other = on_some-Leaves ctx.id (leaves refl) λ i known.
      called-Leaves i ctx args server (wait_handler 10 others i server) (other ctx i refl known)
        (wait_handler-Same 10 i server)

module _ (rt : Runtime) {p : Persister} where
  -- A command of a connection whose handler is there is answered by that handler.
  pub on_handler-found :
      (fuel : ℕ) (others : Server p → Server p) (ctx : Context) (id : ℕ) (args : Args)
      (server : Server p) (h : Handler p)
      → ctx.id ≡ some id
      → lookup id server.handlers ≡ some h
      → on_handler rt fuel others (some ctx) args server
        ≡ answer rt id server (apply rt p fuel ctx args (record h { storage = server.store }))
  unfolding on_handler wait_handler get_handler
  on_handler-found fuel others ctx id args server h named found = rw (named, found) refl
