-- ===== src/Examples/Isolation.antt =====
-- A connection in a transaction, while another one comes, sends a command and goes.
use keyp.Base.{
  ℕ, ◌≡◌, refl, sym, ◌∙◌, arith, true, some, none, List, [], ◌∷◌, ◌==◌, Bool-cases, inl, inr,
  if◌then◌else◌,
}
use keyp.Dict.{lookup, nat_eq}
use keyp.Service.{returns}
use keyp.Service.Dispatch.{apply}
use keyp.Service.Dispatch.Queue.{IsConsistent}
use keyp.App.{on_handler, answer}
use keyp.App.Serving.{IsServing}
use keyp.App.Process.{Event, accepted, received, closed, elapsed, Session, serve}
use keyp.App.Process.Isolation.{Owns, serve-Isolated}
unfoldable use keyp.Dict.{lookup}
use keyp.Service.Stored.{moment}
use keyp.Examples.{ctx, contents, holding}
use keyp.Examples.Handlers.{
  runtime, client, transacting, get_args, get_args-IsQueued, get_is_not_do,
}
use mathlib.Core.Option.{some_inj}
use mathlib.Core.Path.{subst}

abbrev session : Session client
session = record {
  server = record {
    rcon = none;
    handlers = (7, transacting) ∷ [];
    pool = [];
    store = moment 100 (holding contents);
  };
  contexts = (1, ctx) ∷ [];
  written = [];
}

abbrev passing : List (Event client)
passing = accepted 2 8 ∷ received 2 get_args ∷ elapsed (λ s. record s { now = 105 }) ∷ closed 2 ∷ []

module _ {ℓ} {V : Type ℓ} where
  single_entry : (k i : ℕ) (v : V) → lookup i ((k, v) ∷ []) ≡ (if i == k then some v else none)
  unfolding lookup
  single_entry k i v = refl

  single_found : (k i : ℕ) (v w : V) → lookup i ((k, v) ∷ []) ≡ some w → ((i == k) ≡ true) × (v ≡ w)
  single_found k i v w found = elim (Bool-cases (i == k)) [
    | inl same ↦ (same, some_inj.0 (sym (single_entry k i v ∙ rw same refl) ∙ found))
    | inr other ↦
        let missing : lookup i ((k, v) ∷ []) ≡ none = single_entry k i v ∙ rw other refl in
        absurd (ground (arith, missing, found))
  ]

transacting-IsConsistent : IsConsistent runtime client ⊥ transacting
transacting-IsConsistent = record {
  live = (ctx, refl);
  queue = (get_args-IsQueued, (get_args-IsQueued, tt));
}

session-IsServing : IsServing runtime ⊥ session.server
session-IsServing = record {
  serving = λ id h found.
      subst (λ k. IsConsistent runtime client ⊥ k) (single_found 7 id transacting h found).1
        transacting-IsConsistent;
  spare = tt;
}

session-Owns : Owns 1 ctx 7 session
unfolding lookup
session-Owns = record {
  held = refl;
  named = refl;
  alone = λ c far x i found known. absurd (ground (arith, far, (single_found 1 c ctx x found).0));
}

serve-Isolated_example :
    (s' : Session client) × (serve runtime client 5 (λ k. k) passing session ≡ returns s')
    × (lookup 7 s'.server.handlers ≡ some transacting)
    × (on_handler runtime 5 (λ k. k) (lookup 1 s'.contexts) get_args s'.server
        ≡ answer runtime 7 s'.server (
            apply runtime client 5 ctx get_args (record transacting { storage = s'.server.store })))
unfolding lookup
serve-Isolated_example =
    serve-Isolated runtime client 5 (λ k. k) 1 ctx 7 (λ k. refl) passing session transacting
      get_args (λ none_left. absurd (omega arith)) (λ k c. c) (tt, (get_is_not_do, (tt, (tt, tt))))
      ((refl, refl), (refl, (tt, (refl, tt)))) session-IsServing session-Owns refl
