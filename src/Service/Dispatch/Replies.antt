-- ===== src/Service/Dispatch/Replies.antt =====
-- How many results a command gets: a client waits for one reply to each command.
use keyp.Base.{ℕ, ◌≡◌, refl, Bool, true, false, List, [], ◌∷◌, length}
use keyp.Base.{if◌then◌else◌, Bool-cases, Option-cases, inl, inr}
use keyp.Bytes.{Bytes, codes, bytes_eq, bytes_eq_iff}
use keyp.Dict.{lookup, string_eq}
use keyp.Domain.{Context, Result}
use keyp.Service.{
  Args, Persister, Runtime, Handler, Outcome, returns, panics, unfinished, normalize_command_name,
  is_valid,
}
use keyp.Service.Dispatch.{validations, and_then, one_result, accept, apply_named, apply}
use keyp.Service.Dispatch.Tables.{IsDo}
use keyp.Service.Dispatch.Queue.{IsConsistent, EndsWell, never_ends}
use keyp.Service.Dispatch.Serves.{apply-EndsWell}
use keyp.Service.Dispatch.Transaction.{IsNamed}

module _ {p : Persister} where
  -- A call that returns has one result.
  data IsSingle : Outcome (Handler p × List Result) → Type 0 where
    single : {h : Handler p} {r : Result} → IsSingle (returns (h, r ∷ []))
    panicked : IsSingle panics
    goes_on : IsSingle unfinished

  -- The call returns with one result, unless there is an excuse.
  pub data Replies (Excuse : Type 0) : Outcome (Handler p × List Result) → Type 0 where
    replied : {h : Handler p} {r : Result} → Replies Excuse (returns (h, r ∷ []))
    excused : Excuse → Replies Excuse unfinished

  if-IsSingle :
      (b : Bool) {x y : Outcome (Handler p × List Result)}
      → IsSingle x
      → IsSingle y
      → IsSingle (if b then x else y)
  if-IsSingle true hx hy = hx
  if-IsSingle false hx hy = hy

module _ (rt : Runtime) (p : Persister) where
  one_result-IsSingle :
      (o : Outcome (Handler p × Result)) → IsSingle (and_then rt p o (one_result rt p))
  one_result-IsSingle (returns (h, r)) = single
  one_result-IsSingle panics = panicked
  one_result-IsSingle unfinished = goes_on

  apply_named-IsSingle :
      (fuel : ℕ) (name : Bytes) (args : Args) (h : Handler p)
      → IsSingle (apply_named rt p fuel name args h)
  unfolding apply_named accept
  apply_named-IsSingle fuel name args h = elim (Option-cases (lookup name validations)) [
    | inl unknown ↦ rw unknown single
    | inr (v, found) ↦ elim (Option-cases (is_valid v name (length args))) [
      | inl valid ↦ rw (found, valid) (if-IsSingle h.mult_enabled single (one_result-IsSingle _))
      | inr (e, refused) ↦ rw (found, refused) single
    ]
  ]

  apply-IsSingle :
      (fuel : ℕ) (ctx : Context) (args : Args) (h : Handler p)
      → ¬ IsNamed rt (codes "EXEC") args
      → IsSingle (apply rt p fuel ctx args h)
  unfolding apply
  apply-IsSingle fuel ctx [] h other = single
  apply-IsSingle fuel ctx (text ∷ rest) h other =
      let name : Bytes = normalize_command_name rt text in
      if-IsSingle (bytes_eq name (codes "MULTI")) single (
        if-IsSingle (bytes_eq name (codes "DISCARD")) single
          (elim (Bool-cases (bytes_eq name (codes "EXEC"))) [
            | inl exec ↦ absurd (
                other (record {
                  text = text;
                  rest = rest;
                  parts = refl;
                  named = (bytes_eq_iff name (codes "EXEC")).0 exec;
                }))
            | inr no_exec ↦ rw no_exec (apply_named-IsSingle fuel name (text ∷ rest) h)
          ]))

  both-Replies :
      (Excuse : Type 0) (o : Outcome (Handler p × List Result))
      → IsSingle o
      → EndsWell rt p Excuse o
      → Replies Excuse o
  both-Replies Excuse (returns r) single well = replied
  both-Replies Excuse panics one well = elim well [ ]
  both-Replies Excuse unfinished one (never_ends why) = excused why

  -- A command other than EXEC, sent to a handler that has a context and queued only validated
  -- commands, is answered with exactly one result. It fails to return only with an excuse, which
  -- is needed for no fuel and for a command DO, sent or queued.
  pub apply-Replies :
      (Excuse : Type 0) (fuel : ℕ) (ctx : Context) (args : Args) (h : Handler p)
      → (fuel ≡ 0 → Excuse)
      → (IsDo rt p args → Excuse)
      → ¬ IsNamed rt (codes "EXEC") args
      → IsConsistent rt p Excuse h
      → Replies Excuse (apply rt p fuel ctx args h)
  apply-Replies Excuse fuel ctx args h fuelled why other c =
      both-Replies Excuse _ (apply-IsSingle fuel ctx args h other)
        (apply-EndsWell rt p Excuse fuel ctx args h fuelled why c)
