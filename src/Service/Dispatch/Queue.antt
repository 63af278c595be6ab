-- ===== src/Service/Dispatch/Queue.antt =====
-- MULTI, EXEC, DISCARD and the end of `Apply`: the state machine of the queue.
use keyp.Base.{
  ℕ, zero, suc, ◌+◌, ◌≡◌, ◌≤◌, refl, sym, ap, ◌∙◌, arith, true, none, some, List, [], ◌∷◌, ◌++◌,
}
use keyp.Base.{length, length-append, if◌then◌else◌, Bool-cases, inl, inr, le→leb, ltb, leb, All}
use keyp.Bytes.{Bytes, codes}
use keyp.Dict.{lookup, string_eq}
use keyp.Domain.{Result}
use keyp.Service.{
  Args, Persister, Runtime, Handler, Outcome, returns, panics, unfinished, Validation,
  normalize_command_name, is_valid,
}
use keyp.Service.Dispatch.{validations, do_in, do_command, and_then, exec_loop, exec}
use keyp.Service.Dispatch.Safety.{IsLive, Keeps, IsSound, returned, runs_on, unchanged}
use keyp.Service.Dispatch.Tables.{IsDo, normal-IsDo, command-IsFit}
use mathlib.Core.Path.{subst}

module _ (rt : Runtime) (p : Persister) (Excuse : Type 0) where
  -- Arguments that passed the validation of their command; DO needs an excuse.
  pub record IsQueued (args : Args) : Type 0 where
    pub text : Bytes
    pub rest : Args
    pub parts : args ≡ text ∷ rest
    pub rule : Validation
    pub known : lookup (normalize_command_name rt text) validations ≡ some rule
    pub enough : rule.min_args ≤ length args
    pub plain : normalize_command_name rt text ≡ codes "DO" → Excuse

  do_command-IsSound :
      (fuel : ℕ) (args : Args) (h : Handler p)
      → (fuel ≡ 0 → Excuse)
      → IsQueued args
      → IsLive h
      → IsSound Excuse h (do_command rt p fuel args h)
  unfolding do_command do_in
  do_command-IsSound zero args h fuelled q live = runs_on (fuelled refl)
  do_command-IsSound (suc fuel) args h fuelled q live =
      let whole : Args = q.text ∷ q.rest in
      let name : Bytes = normalize_command_name rt q.text in
      let same : length whole ≡ length args = ap length (sym q.parts) in
      let there : leb 1 (length whole) ≡ true = le→leb 1 (length whole) (omega arith) in
      let (command, found, fit) = command-IsFit rt p Excuse fuel name q.rule q.known in
      rw (q.parts) (elim (Bool-cases (ltb (length whole) 2)) [
        | inl short ↦ rw short (unchanged live)
        | inr long ↦
            rw (long, there, found)
              (fit (name ∷ q.rest) h
                (λ e. (
                  subst (λ n. IsDo rt p (n ∷ q.rest)) (sym e) (normal-IsDo rt p q.rest),
                  q.plain e,
                ))
                live (omega (arith, same, q.enough)))
      ])

  -- How EXEC ends on `n` queued commands: with an excuse, or with the queue and the context as
  -- before and one result for each command behind those of before.
  pub data Executes (h : Handler p) (n : ℕ) : Outcome (Handler p × List Result) → Type 0 where
    executed :
        {h' : Handler p} {rs : List Result}
        → Keeps h h'
        → length rs ≡ n
        → Executes h n (returns (h', rs))
    goes_on : Excuse → Executes h n unfinished

  abbrev Keeps-trans : {h h' h'' : Handler p} → Keeps h h' → Keeps h' h'' → Keeps h h''
  Keeps-trans a b = record {
    same_queue = b.same_queue ∙ a.same_queue;
    same_mode = b.same_mode ∙ a.same_mode;
    live = b.live;
  }

  Executes-trans :
      {h h' : Handler p} {n : ℕ} {o : Outcome (Handler p × List Result)}
      → Keeps h h'
      → Executes h' n o
      → Executes h n o
  Executes-trans k (executed k' size) = executed (Keeps-trans k k') size
  Executes-trans k (goes_on why) = goes_on why

  and_then-Executes :
      {h : Handler p} {n : ℕ} (o : Outcome (Handler p × Result))
      (k : Handler p × Result → Outcome (Handler p × List Result))
      → IsSound Excuse h o
      → ((h' : Handler p) (r : Result) → Keeps h h' → Executes h' n (k (h', r)))
      → Executes h n (and_then rt p o k)
  and_then-Executes (returns (h', r)) k (returned kept) each = Executes-trans kept (each h' r kept)
  and_then-Executes panics k sound each = elim sound [ ]
  and_then-Executes unfinished k (runs_on why) each = goes_on why

  exec_loop-Executes :
      (fuel : ℕ) (queue : List Args) (results : List Result) (h : Handler p) (n : ℕ)
      → (fuel ≡ 0 → Excuse)
      → n ≡ length results + length queue
      → All IsQueued queue
      → IsLive h
      → Executes h n (exec_loop rt p fuel queue results h)
  unfolding exec_loop
  exec_loop-Executes fuel [] results h n fuelled size valid live =
      executed (record { same_queue = refl; same_mode = refl; live = live }) (omega arith)
  exec_loop-Executes fuel (args ∷ queue) results h n fuelled size valid live =
      and_then-Executes (do_command rt p fuel args h) _
        (do_command-IsSound fuel args h fuelled valid.0 live)
        λ h' r kept.
          exec_loop-Executes fuel queue (results ++ (r ∷ [])) h' n fuelled
            (omega (arith, size, length-append results (r ∷ []))) valid.1 kept.live

  -- For a handler with a context, in a transaction: EXEC of a queue of validated commands does
  -- not panic, and it returns unless there is an excuse, which is needed for no fuel and for a
  -- queued DO; where it returns, there is one result for each queued command, and the queue and
  -- the mode are as before.
  pub exec-Executes :
      (fuel : ℕ) (h : Handler p)
      → (fuel ≡ 0 → Excuse)
      → All IsQueued h.mult_args
      → IsLive h
      → h.mult_enabled ≡ true
      → Executes h (length h.mult_args) (exec rt p fuel h)
  unfolding exec
  exec-Executes fuel h fuelled valid live on =
      subst
        (λ b.
          Executes h (length h.mult_args)
            (if b then exec_loop rt p fuel h.mult_args [] h else returns (h, [])))
        (sym on)
        (exec_loop-Executes fuel h.mult_args [] h (length h.mult_args) fuelled (omega arith) valid
          live)

  -- A handler that can serve: it has a context, and what it queued passed the validation.
  pub record IsConsistent (h : Handler p) : Type 0 where
    pub live : IsLive h
    pub queue : All IsQueued h.mult_args

  -- The call ends in no panic, it returns unless there is an excuse, and where it returns the handler can serve again.
  pub data EndsWell : Outcome (Handler p × List Result) → Type 0 where
    ended : {h' : Handler p} {rs : List Result} → IsConsistent h' → EndsWell (returns (h', rs))
    never_ends : Excuse → EndsWell unfinished

  pub Keeps-IsConsistent : {h h' : Handler p} → IsConsistent h → Keeps h h' → IsConsistent h'
  Keeps-IsConsistent c k = record {
    live = k.live;
    queue = subst (λ q. All IsQueued q) (sym k.same_queue) c.queue;
  }

  pub Executes-EndsWell :
      {h : Handler p} {n : ℕ} {o : Outcome (Handler p × List Result)}
      → IsConsistent h
      → Executes h n o
      → EndsWell o
  Executes-EndsWell c (executed k size) = ended (Keeps-IsConsistent c k)
  Executes-EndsWell c (goes_on why) = never_ends why

  pub is_valid-enough :
      (v : Validation) (name : Bytes) (count : ℕ)
      → is_valid v name count ≡ none
      → v.min_args ≤ count
  unfolding is_valid
  is_valid-enough v name count h = ground arith
