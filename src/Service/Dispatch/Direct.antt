-- ===== src/Service/Dispatch/Direct.antt =====
-- EXEC against the same commands sent one by one outside of a transaction.
use keyp.Base.{
  ℕ, suc, ◌≡◌, ◌≢◌, ◌≤◌, refl, sym, ap, ◌∙◌, arith, true, false, some, List, [], ◌∷◌, ◌++◌,
  append_assoc, append-nil,
}
use keyp.Base.{length, Bool-cases, inl, inr, All, le→ltb_false, le→leb, ltb, leb}
use keyp.Bytes.{Bytes, codes, bytes_eq, bytes_eq_iff}
use keyp.Dict.{Dict, lookup, string_eq}
use keyp.Domain.{Context, Result, ok_bytes}
use keyp.Service.{
  Args, Persister, Runtime, Handler, Outcome, returns, panics, unfinished, Command,
  normalize_command_name,
}
use keyp.Service.Commands.{respond}
use keyp.Service.Dispatch.{commands, do_in, do_command, and_then, one_result, exec_loop, apply}
use keyp.Service.Dispatch.Tables.{command-IsFit}
use keyp.Service.Dispatch.Modal.{IsModal, in_mode, with_mode}
use keyp.Service.Dispatch.Modal.Commands as Modal
use keyp.Service.Dispatch.Transaction.{
  IsNamed, IsAccepted, apply_all, all_queued, after_results, after_results-nil, transaction-exec,
  apply-runs,
}
use mathlib.Core.Path.{subst}
use mathlib.Core.Option.{some_inj}

-- A pair, for long tuples.
infixr 5 ◌⊗◌
abbrev ◌⊗◌ {ℓ κ} : {A : Type ℓ} {B : Type κ} → A → B → A × B
a ⊗ b = (a, b)

module _ (rt : Runtime) (p : Persister) where
  -- Every entry but that of DO is modal.
  abbrev AreModal : Dict Bytes (Command p) → Type 0
  AreModal [] = Unit
  AreModal ((name, command) ∷ cs) = (name ≢ codes "DO" → IsModal command) × AreModal cs

  commands-AreModal : (do_it : Command p) → AreModal (commands rt p do_it)
  unfolding commands
  commands-AreModal do_it =
      (λ other. Modal.del-IsModal rt p)
      ⊗ (λ other. Modal.get-IsModal rt p)
      ⊗ (λ other. Modal.set-IsModal rt p)
      ⊗ (λ other. Modal.sel-IsModal rt p)
      ⊗ (λ other. absurd (other refl))
      ⊗ (λ other. Modal.ttl-IsModal rt p)
      ⊗ (λ other. Modal.expire-IsModal rt p)
      ⊗ (λ other. Modal.persist-IsModal rt p)
      ⊗ (λ other. Modal.exists-IsModal rt p)
      ⊗ (λ other. Modal.llen-IsModal rt p)
      ⊗ (λ other. Modal.lindex-IsModal rt p)
      ⊗ (λ other. Modal.lset-IsModal rt p)
      ⊗ (λ other. Modal.lpush-IsModal rt p)
      ⊗ (λ other. Modal.rpush-IsModal rt p)
      ⊗ (λ other. Modal.lpop-IsModal rt p)
      ⊗ (λ other. Modal.rpop-IsModal rt p)
      ⊗ (λ other. Modal.lrange-IsModal rt p)
      ⊗ (λ other. Modal.flushall-IsModal rt p)
      ⊗ (λ other. Modal.sadd-IsModal rt p)
      ⊗ (λ other. Modal.srem-IsModal rt p)
      ⊗ (λ other. Modal.smembers-IsModal rt p)
      ⊗ (λ other. Modal.sismember-IsModal rt p)
      ⊗ (λ other. Modal.zadd-IsModal rt p)
      ⊗ (λ other. Modal.zrange-IsModal rt p)
      ⊗ (λ other. Modal.zcount-IsModal rt p)
      ⊗ (λ other. Modal.incr-IsModal rt p)
      ⊗ (λ other. Modal.incrby-IsModal rt p)
      ⊗ (λ other. Modal.decr-IsModal rt p)
      ⊗ (λ other. Modal.decrby-IsModal rt p)
      ⊗ (λ other. Modal.append-IsModal rt p)
      ⊗ (λ other. Modal.ping-IsModal rt p)
      ⊗ (λ other. Modal.del-IsModal rt p)
      ⊗ tt

  lookup-IsModal :
      (name : Bytes) (cs : Dict Bytes (Command p)) (command : Command p)
      → AreModal cs
      → name ≢ codes "DO"
      → lookup name cs ≡ some command
      → IsModal command
  unfolding lookup
  lookup-IsModal name [] command modal other found = absurd (cc)
  lookup-IsModal name ((key, c) ∷ cs) command modal other found =
      elim (Bool-cases (bytes_eq name key)) [
        | inl same ↦
            let e : name ≡ key = (bytes_eq_iff name key).0 same in
            let e' : c ≡ command = some_inj.0 (sym (rw same refl) ∙ found) in
            subst (λ (k : Command p). IsModal k) e' (modal.0 (subst (λ n. n ≢ codes "DO") e other))
        | inr apart ↦ lookup-IsModal name cs command modal.1 other (sym (rw apart refl) ∙ found)
      ]

  -- A command that DO lets through: with an argument, and not DO itself.
  pub record IsDirect (args : Args) : Type 0 where
    pub accepted : IsAccepted rt args
    pub two : 2 ≤ length args
    pub other : normalize_command_name rt accepted.text ≢ codes "DO"

  -- One command, in EXEC and outside of a transaction.
  record RunsAlike (fuel : ℕ) (ctx : Context) (queue : List Args) (args : Args) (h : Handler p)
      : Type 0 where
    outcome : Outcome (Handler p × Result)
    queued_run :
        do_command rt p (suc fuel) args (with_mode queue true h) ≡ in_mode queue true outcome
    direct_run :
        apply rt p fuel ctx args (with_mode [] false h)
        ≡ and_then rt p (in_mode [] false outcome) (one_result rt p)

  runs_alike :
      (fuel : ℕ) (ctx : Context) (queue : List Args) (args : Args) (h : Handler p)
      → IsDirect args
      → RunsAlike fuel ctx queue args h
  runs_alike fuel ctx queue args h d =
      let a = d.accepted in
      let whole : Args = a.text ∷ a.rest in
      let name : Bytes = normalize_command_name rt a.text in
      let same : length whole ≡ length args = ap length (sym a.parts) in
      let (command, found, fit) = command-IsFit rt p (Unit {0}) fuel name a.rule a.known in
      let modal : IsModal command =
        lookup-IsModal name _ command (commands-AreModal (do_command rt p fuel)) d.other found in
      let enough : ltb (length whole) 2 ≡ false =
        le→ltb_false (length whole) 2 (omega (arith, d.two, same)) in
      let there : leb 1 (length whole) ≡ true = le→leb 1 (length whole) (omega arith) in
      record {
        outcome = command whole h;
        queued_run =
            unfold do_command do_in in
            rw (a.parts, enough, there, found) (modal queue true a.text name a.rest h).same;
        direct_run = rw a.parts (
            apply-runs rt p fuel ctx a.text a.rest (with_mode [] false h) name a.rule command refl
              a.known a.valid found refl
            ∙ ap (λ o. and_then rt p o (one_result rt p))
                (modal [] false a.text a.text a.rest h).same);
      }

  -- An outcome of several commands, with the handler in a transaction with this queue.
  abbrev pub in_transaction :
      List Args → Outcome (Handler p × List Result) → Outcome (Handler p × List Result)
  in_transaction queue (returns (h, rs)) = returns (with_mode queue true h, rs)
  in_transaction queue panics = panics
  in_transaction queue unfinished = unfinished

  in_transaction-after_results :
      (queue : List Args) (rs rs' : List Result) (o : Outcome (Handler p × List Result))
      → after_results rt p rs (in_transaction queue (after_results rt p rs' o))
        ≡ after_results rt p (rs ++ rs') (in_transaction queue o)
  in_transaction-after_results queue rs rs' (returns (h, rs'')) =
      ap (λ r. returns (with_mode queue true h, r)) (sym (append_assoc rs rs' rs''))
  in_transaction-after_results queue rs rs' panics = refl
  in_transaction-after_results queue rs rs' unfinished = refl

  -- What is to be shown of a queue of commands.
  abbrev ExecIsDirect : ℕ → Context → List Args → List Args → Type 0
  ExecIsDirect fuel ctx queue cs =
      (results : List Result) (h : Handler p)
      → exec_loop rt p (suc fuel) cs results (with_mode queue true h)
        ≡ after_results rt p results
            (in_transaction queue (apply_all rt p fuel ctx cs (with_mode [] false h)))

  one_more :
      (fuel : ℕ) (ctx : Context) (queue cs : List Args) (results : List Result)
      → ExecIsDirect fuel ctx queue cs
      → (o : Outcome (Handler p × Result))
      → and_then rt p
          (in_mode queue true o)
          (λ (h', r). exec_loop rt p (suc fuel) cs (results ++ (r ∷ [])) h')
        ≡ after_results rt p results (
            in_transaction queue (
              and_then rt p (and_then rt p (in_mode [] false o) (one_result rt p)) λ (h', rs).
                and_then rt p
                  (apply_all rt p fuel ctx cs h')
                  λ (h'', rs'). returns (h'', rs ++ rs')))
  one_more fuel ctx queue cs results ih (returns (h', r)) =
      ih (results ++ (r ∷ [])) h'
      ∙ sym (
          in_transaction-after_results queue results (r ∷ [])
            (apply_all rt p fuel ctx cs (with_mode [] false h')))
  one_more fuel ctx queue cs results ih panics = refl
  one_more fuel ctx queue cs results ih unfinished = refl

  exec_loop-direct :
      (fuel : ℕ) (ctx : Context) (queue cs : List Args)
      → All IsDirect cs
      → ExecIsDirect fuel ctx queue cs
  unfolding exec_loop apply_all
  exec_loop-direct fuel ctx queue [] direct results h =
      ap (λ rs. returns (with_mode queue true h, rs)) (sym (append-nil results))
  exec_loop-direct fuel ctx queue (args ∷ cs) direct results h =
      let alike = runs_alike fuel ctx queue args h direct.0 in
      rw (alike.queued_run, alike.direct_run)
        (one_more fuel ctx queue cs results (exec_loop-direct fuel ctx queue cs direct.1)
          alike.outcome)

  all_accepted : (cs : List Args) → All IsDirect cs → All (IsAccepted rt) cs
  all_accepted [] h = tt
  all_accepted (args ∷ cs) h = (h.0.accepted, all_accepted cs h.1)

  -- MULTI, accepted commands and EXEC on an empty queue: each command is answered QUEUED, and
  -- EXEC ends as the same commands do when they are sent one by one outside of a transaction,
  -- with the same results in the same order, the same storage and the same context; after it the
  -- handler is still in the transaction, with the commands in its queue. Each command has an
  -- argument and is not DO. EXEC is given one step of fuel more.
  pub transaction-direct :
      (fuel : ℕ) (ctx : Context) (begin : Args) (cs : List Args) (end : Args) (h : Handler p)
      → IsNamed rt (codes "MULTI") begin
      → All IsDirect cs
      → IsNamed rt (codes "EXEC") end
      → h.mult_args ≡ []
      → apply_all rt p (suc fuel) ctx (begin ∷ (cs ++ end ∷ [])) h
        ≡ after_results rt p
            (respond ok_bytes ∷ all_queued rt p cs)
            (in_transaction cs (apply_all rt p fuel ctx cs (with_mode [] false h)))
  transaction-direct fuel ctx begin cs end h multi direct run none_queued =
      transaction-exec rt p (suc fuel) ctx begin cs end h multi (all_accepted cs direct) run
        none_queued
      ∙ ap (after_results rt p (respond ok_bytes ∷ all_queued rt p cs))
          (exec_loop-direct fuel ctx cs cs direct [] h ∙ after_results-nil rt p _)
