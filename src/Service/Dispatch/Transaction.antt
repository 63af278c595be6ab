-- ===== src/Service/Dispatch/Transaction.antt =====
-- A connection's commands in sequence: from MULTI to DISCARD or EXEC, and a command outside of them.
use keyp.Base.{
  ℕ, ◌≡◌, refl, sym, ap, ◌∙◌, arith, Bool, true, false, none, some, List, [], ◌∷◌, ◌++◌,
  append_assoc, append-nil,
}
use keyp.Base.{length, if◌then◌else◌, Bool-cases, inl, inr, All, map}
use keyp.Bytes.{Bytes, codes, bytes_eq, bytes_eq_iff}
unfoldable use keyp.Bytes.{bytes_eq}
use keyp.Dict.{lookup, string_eq}
use keyp.Domain.{Context, Result, ok_bytes, queued}
use keyp.Service.{
  Args, Persister, Runtime, Handler, Outcome, returns, panics, unfinished, Command, Validation,
  normalize_command_name, is_valid,
}
use keyp.Service.Commands.{respond}
use keyp.Service.Dispatch.{
  validations, commands, do_command, one_result, and_then, exec, exec_loop, accept, apply_named,
  apply,
}

if_off {ℓ} : {A : Type ℓ} (x y : A) (b : Bool) → b ≡ false → (if b then x else y) ≡ y
if_off x y true off = absurd (ground (arith, off))
if_off x y false off = refl

-- A name of the table is none of the three of the queue.
other_name :
    (name key : Bytes) (v : Validation)
    → lookup name validations ≡ some v
    → lookup key validations ≡ none
    → bytes_eq name key ≡ false
other_name name key v known unknown = elim (Bool-cases (bytes_eq name key)) [
  | inl same ↦
      let e : name ≡ key = (bytes_eq_iff name key).0 same in
      absurd (ground (arith, known, unknown, ap (λ n. lookup n validations) e))
  | inr other ↦ other
]

no_multi : lookup (codes "MULTI") validations ≡ none
unfolding validations lookup bytes_eq
no_multi = refl

no_discard : lookup (codes "DISCARD") validations ≡ none
unfolding validations lookup bytes_eq
no_discard = refl

no_exec : lookup (codes "EXEC") validations ≡ none
unfolding validations lookup bytes_eq
no_exec = refl

module _ (rt : Runtime) where
  pub record IsNamed (name : Bytes) (args : Args) : Type 0 where
    pub text : Bytes
    pub rest : Args
    pub parts : args ≡ text ∷ rest
    pub named : normalize_command_name rt text ≡ name

  -- Arguments of a command in the table, in the number that it takes.
  pub record IsAccepted (args : Args) : Type 0 where
    pub text : Bytes
    pub rest : Args
    pub parts : args ≡ text ∷ rest
    pub rule : Validation
    pub known : lookup (normalize_command_name rt text) validations ≡ some rule
    pub valid : is_valid rule (normalize_command_name rt text) (length (text ∷ rest)) ≡ none

module _ (rt : Runtime) (p : Persister) where
  -- `Apply` for one command after another, with all results in order.
  unfoldable pub apply_all : ℕ → Context → List Args → Handler p → Outcome (Handler p × List Result)
  apply_all fuel ctx [] h = returns (h, [])
  apply_all fuel ctx (args ∷ more) h = and_then rt p (apply rt p fuel ctx args h) λ (h', results).
      and_then rt p (apply_all fuel ctx more h')
        λ (h'', results'). returns (h'', results ++ results')

  apply-queued :
      (fuel : ℕ) (ctx : Context) (args : Args) (h : Handler p)
      → IsAccepted rt args
      → apply rt p fuel ctx args (record h { mult_enabled = true })
        ≡ returns (
          record h { mult_enabled = true; mult_args = h.mult_args ++ (args ∷ []) },
          respond queued ∷ [],
        )
  unfolding apply apply_named accept
  apply-queued fuel ctx args h a =
      let name : Bytes = normalize_command_name rt a.text in
      rw
        (
          a.parts,
          other_name name (codes "MULTI") a.rule a.known no_multi,
          other_name name (codes "DISCARD") a.rule a.known no_discard,
          other_name name (codes "EXEC") a.rule a.known no_exec,
          a.known,
          a.valid,
        )
        refl

  -- The handler in a transaction, with this queue.
  abbrev queueing : List Args → Handler p → Handler p
  queueing queue h = record h { mult_enabled = true; mult_args = queue }

  -- The same results in front of those of an outcome.
  abbrev pub after_results :
      List Result → Outcome (Handler p × List Result) → Outcome (Handler p × List Result)
  after_results rs o = and_then rt p o λ (h', rs'). returns (h', rs ++ rs')

  abbrev pub all_queued : List Args → List Result
  all_queued args = map (λ _. respond queued) args

  after_results-twice :
      (rs rs' : List Result) (o : Outcome (Handler p × List Result))
      → after_results rs (after_results rs' o) ≡ after_results (rs ++ rs') o
  after_results-twice rs rs' (returns (h, rs'')) =
      ap (λ r. returns (h, r)) (sym (append_assoc rs rs' rs''))
  after_results-twice rs rs' panics = refl
  after_results-twice rs rs' unfinished = refl

  pub after_results-nil : (o : Outcome (Handler p × List Result)) → after_results [] o ≡ o
  after_results-nil (returns (h, rs)) = refl
  after_results-nil panics = refl
  after_results-nil unfinished = refl

  apply_all-queued :
      (fuel : ℕ) (ctx : Context) (cs more : List Args) (queue : List Args) (h : Handler p)
      → All (IsAccepted rt) cs
      → apply_all fuel ctx (cs ++ more) (queueing queue h)
        ≡ after_results (all_queued cs) (apply_all fuel ctx more (queueing (queue ++ cs) h))
  unfolding apply_all
  apply_all-queued fuel ctx [] more queue h valid =
      rw (append-nil queue) (sym (after_results-nil _))
  apply_all-queued fuel ctx (c ∷ cs) more queue h valid =
      rw (apply-queued fuel ctx c (queueing queue h) valid.0, apply_all)
        (ap (after_results (respond queued ∷ []))
            (apply_all-queued fuel ctx cs more (queue ++ (c ∷ [])) h valid.1)
          ∙ after_results-twice (respond queued ∷ []) (all_queued cs) _
          ∙ ap (λ q. after_results (all_queued (c ∷ cs)) (apply_all fuel ctx more (queueing q h)))
              (append_assoc queue (c ∷ []) cs))

  then_nothing :
      (o : Outcome (Handler p × List Result))
      → and_then rt p o (λ (h', rs). returns (h', rs ++ [])) ≡ o
  then_nothing (returns (h, rs)) = ap (λ r. returns (h, r)) (append-nil rs)
  then_nothing panics = refl
  then_nothing unfinished = refl

  apply_all-one :
      (fuel : ℕ) (ctx : Context) (args : Args) (h : Handler p)
      → apply_all fuel ctx (args ∷ []) h ≡ apply rt p fuel ctx args h
  unfolding apply_all
  apply_all-one fuel ctx args h = then_nothing (apply rt p fuel ctx args h)

  apply-discard :
      (fuel : ℕ) (ctx : Context) (args : Args) (h : Handler p)
      → IsNamed rt (codes "DISCARD") args
      → apply rt p fuel ctx args h
        ≡ returns (record h { mult_enabled = false; mult_args = [] }, respond ok_bytes ∷ [])
  unfolding apply bytes_eq
  apply-discard fuel ctx args h a = rw (a.parts, a.named) refl

  apply-multi :
      (fuel : ℕ) (ctx : Context) (args : Args) (h : Handler p)
      → IsNamed rt (codes "MULTI") args
      → apply rt p fuel ctx args h
        ≡ returns (record h { mult_enabled = true }, respond ok_bytes ∷ [])
  unfolding apply bytes_eq
  apply-multi fuel ctx args h a = rw (a.parts, a.named) refl

  apply-exec :
      (fuel : ℕ) (ctx : Context) (args : Args) (h : Handler p)
      → IsNamed rt (codes "EXEC") args
      → apply rt p fuel ctx args h ≡ exec rt p fuel h
  unfolding apply bytes_eq
  apply-exec fuel ctx args h a = rw (a.parts, a.named) refl

  -- MULTI, accepted commands and DISCARD: each command is answered QUEUED, none is run, the
  -- storage is as before and the queue is empty.
  pub transaction-discard :
      (fuel : ℕ) (ctx : Context) (begin : Args) (cs : List Args) (end : Args) (h : Handler p)
      → IsNamed rt (codes "MULTI") begin
      → All (IsAccepted rt) cs
      → IsNamed rt (codes "DISCARD") end
      → apply_all fuel ctx (begin ∷ (cs ++ end ∷ [])) h
        ≡ returns (
          record h { mult_enabled = false; mult_args = [] },
          respond ok_bytes ∷ (all_queued cs ++ respond ok_bytes ∷ []),
        )
  unfolding apply_all
  transaction-discard fuel ctx begin cs end h multi valid discard =
      rw (apply-multi fuel ctx begin h multi) (
        ap (after_results (respond ok_bytes ∷ [])) (
          apply_all-queued fuel ctx cs (end ∷ []) h.mult_args h valid
          ∙ ap (after_results (all_queued cs)) (
              apply_all-one fuel ctx end (queueing (h.mult_args ++ cs) h)
              ∙ apply-discard fuel ctx end (queueing (h.mult_args ++ cs) h) discard)))

  -- MULTI, accepted commands and EXEC on an empty queue: each command is answered QUEUED, and
  -- EXEC runs them in their order on the storage as it was before MULTI.
  pub transaction-exec :
      (fuel : ℕ) (ctx : Context) (begin : Args) (cs : List Args) (end : Args) (h : Handler p)
      → IsNamed rt (codes "MULTI") begin
      → All (IsAccepted rt) cs
      → IsNamed rt (codes "EXEC") end
      → h.mult_args ≡ []
      → apply_all fuel ctx (begin ∷ (cs ++ end ∷ [])) h
        ≡ after_results
            (respond ok_bytes ∷ all_queued cs)
            (exec_loop rt p fuel cs [] (record h { mult_enabled = true; mult_args = cs }))
  unfolding apply_all exec
  transaction-exec fuel ctx begin cs end h multi valid run none_queued =
      rw (apply-multi fuel ctx begin h multi) (
        ap (after_results (respond ok_bytes ∷ []))
          (apply_all-queued fuel ctx cs (end ∷ []) h.mult_args h valid)
        ∙ after_results-twice (respond ok_bytes ∷ []) (all_queued cs) _
        ∙ ap (after_results (respond ok_bytes ∷ all_queued cs)) (
            rw none_queued (
              apply_all-one fuel ctx end (queueing cs h)
              ∙ apply-exec fuel ctx end (queueing cs h) run)))

  -- Outside a transaction an accepted command is run.
  pub apply-runs :
      (fuel : ℕ) (ctx : Context) (text : Bytes) (rest : Args) (h : Handler p) (name : Bytes)
      (v : Validation) (command : Command p)
      → normalize_command_name rt text ≡ name
      → lookup name validations ≡ some v
      → is_valid v name (length (text ∷ rest)) ≡ none
      → lookup name (commands rt p (do_command rt p fuel)) ≡ some command
      → h.mult_enabled ≡ false
      → apply rt p fuel ctx (text ∷ rest) h
        ≡ and_then rt p (command (text ∷ rest) h) (one_result rt p)
  unfolding apply apply_named accept
  apply-runs fuel ctx text rest h name v command named known valid found off =
      rw
        (
          named,
          other_name name (codes "MULTI") v known no_multi,
          other_name name (codes "DISCARD") v known no_discard,
          other_name name (codes "EXEC") v known no_exec,
          known,
          valid,
          found,
        )
        (if_off _ _ h.mult_enabled off)
