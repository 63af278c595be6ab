-- ===== src/Service/Dispatch/Tables.antt =====
-- The two tables of handler.go beside each other, and DO.
use keyp.Base.{ℕ, zero, suc, ◌≡◌, ◌≤◌, refl, sym, ap, ◌∙◌, arith, true, false, some, [], ◌∷◌}
use keyp.Base.{length, Bool-cases, inl, inr, le→ltb_false, le→leb, ltb, leb}
use mathlib.Core.Path.{subst, subst₂}
use mathlib.Core.Option.{some_inj}
use keyp.Bytes.{Bytes, codes, bytes_eq, bytes_eq_iff}
use keyp.Int64.{negsuc}
use keyp.Dict.{Dict, lookup, string_eq}
use keyp.Service.{
  Args, Persister, Runtime, Handler, unfinished, Command, Validation, normalize_command_name,
}
use keyp.Service.Dispatch.{validations, commands, do_in, do_command}
use keyp.Service.Dispatch.Safety.{IsLive, IsSound, runs_on}
use keyp.Service.Dispatch.Safe as Safe
unfoldable use keyp.Bytes.{bytes_eq}

module _ (rt : Runtime) (p : Persister) where
  -- The arguments of a command DO.
  pub record IsDo (args : Args) : Type 0 where
    pub text : Bytes
    pub rest : Args
    pub parts : args ≡ text ∷ rest
    pub named : normalize_command_name rt text ≡ codes "DO"

  do_is_do : lookup (codes "DO") validations ≡ some (record { min_args = 2; max_args = negsuc 0 })
  unfolding validations lookup bytes_eq
  do_is_do = refl

  pub normal-IsDo : (rest : Args) → IsDo (codes "DO" ∷ rest)
  unfolding normalize_command_name
  normal-IsDo rest = record { text = codes "DO"; rest = rest; parts = refl; named = refl }

  lookup-do : (do_it : Command p) → lookup (codes "DO") (commands rt p do_it) ≡ some do_it
  unfolding commands lookup bytes_eq
  lookup-do do_it = refl

  -- DO with at least two arguments never returns: it looks up its own name and calls itself, at
  -- any fuel.
  pub do_never_returns :
      (fuel : ℕ) (args : Args) (h : Handler p)
      → IsDo args
      → 2 ≤ length args
      → do_command rt p fuel args h ≡ unfinished
  unfolding do_command do_in
  do_never_returns zero args h d two = refl
  do_never_returns (suc fuel) args h d two =
      let many : length (d.text ∷ d.rest) ≡ length args = ap length (sym d.parts) in
      let enough : ltb (length (d.text ∷ d.rest)) 2 ≡ false =
        le→ltb_false (length (d.text ∷ d.rest)) 2 (omega arith) in
      let rest_there : leb 1 (length (d.text ∷ d.rest)) ≡ true =
        le→leb 1 (length (d.text ∷ d.rest)) (omega arith) in
      rw (d.parts, enough, rest_there, d.named, lookup-do (do_command rt p fuel))
        (do_never_returns fuel (codes "DO" ∷ d.rest) h (normal-IsDo d.rest) (omega arith))

module _ (rt : Runtime) (p : Persister) (Excuse : Type 0) where
  -- What the entry of a name does with enough arguments; that of DO is called for DO
  -- alone, and then there is an excuse not to return.
  abbrev pub IsFit : Bytes → Validation → Command p → Type 0
  IsFit name v command =
      (args : Args) (h : Handler p)
      → (name ≡ codes "DO" → IsDo rt p args × Excuse)
      → IsLive h
      → v.min_args ≤ length args
      → IsSound Excuse h (command args h)

  -- The tables have the same names in the same order, and every entry is fit.
  infixr 5 ◌⊗◌
  data Matches : Dict Bytes Validation → Dict Bytes (Command p) → Type 0 where
    nil : Matches [] []
    ◌⊗◌ :
        {name : Bytes} {v : Validation} {command : Command p} {vs : Dict Bytes Validation}
        {cs : Dict Bytes (Command p)}
        → IsFit name v command
        → Matches vs cs
        → Matches ((name, v) ∷ vs) ((name, command) ∷ cs)

  lookup-Matches :
      (name : Bytes) (v : Validation) {vs : Dict Bytes Validation} {cs : Dict Bytes (Command p)}
      → Matches vs cs
      → lookup name vs ≡ some v
      → (command : Command p) × (lookup name cs ≡ some command) × IsFit name v command
  unfolding lookup
  lookup-Matches name v nil found = absurd (ground (arith, found))
  lookup-Matches name v (◌⊗◌ {name = key} {v = w} {command = command} fit more) found =
      elim (Bool-cases (bytes_eq name key)) [
        | inl same ↦
            let e : name ≡ key = (bytes_eq_iff name key).0 same in
            let e' : w ≡ v = some_inj.0 (sym (rw same refl) ∙ found) in
            (command, rw same refl, subst₂ (λ n u. IsFit n u command) (sym e) e' fit)
        | inr other ↦
            let (c, at, fit') = lookup-Matches name v more (sym (rw other refl) ∙ found) in
            (c, rw other at, fit')
      ]

  -- Every name of the one table is in the other, and its handler does not index past the arguments
  -- that the validation lets through.
  tables_match :
      (do_it : Command p)
      → ((args : Args) (h : Handler p)
          → IsDo rt p args
          → Excuse
          → 2 ≤ length args
          → IsSound Excuse h (do_it args h))
      → Matches validations (commands rt p do_it)
  unfolding validations commands
  tables_match do_it do_fits =
      (λ args h named live enough. Safe.del-IsSafe rt p Excuse args h live enough)
      ⊗ (λ args h named live enough. Safe.get-IsSafe rt p Excuse args h live enough)
      ⊗ (λ args h named live enough. Safe.set-IsSafe rt p Excuse args h live enough)
      ⊗ (λ args h named live enough. Safe.sel-IsSafe rt p Excuse args h live enough)
      ⊗ (λ args h named live enough. do_fits args h (named refl).0 (named refl).1 enough)
      ⊗ (λ args h named live enough. Safe.ttl-IsSafe rt p Excuse args h live enough)
      ⊗ (λ args h named live enough. Safe.expire-IsSafe rt p Excuse args h live enough)
      ⊗ (λ args h named live enough. Safe.persist-IsSafe rt p Excuse args h live enough)
      ⊗ (λ args h named live enough. Safe.exists-IsSafe rt p Excuse args h live enough)
      ⊗ (λ args h named live enough. Safe.llen-IsSafe rt p Excuse args h live enough)
      ⊗ (λ args h named live enough. Safe.lindex-IsSafe rt p Excuse args h live enough)
      ⊗ (λ args h named live enough. Safe.lset-IsSafe rt p Excuse args h live enough)
      ⊗ (λ args h named live enough. Safe.lpush-IsSafe rt p Excuse args h live enough)
      ⊗ (λ args h named live enough. Safe.rpush-IsSafe rt p Excuse args h live enough)
      ⊗ (λ args h named live enough. Safe.lpop-IsSafe rt p Excuse args h live enough)
      ⊗ (λ args h named live enough. Safe.rpop-IsSafe rt p Excuse args h live enough)
      ⊗ (λ args h named live enough. Safe.lrange-IsSafe rt p Excuse args h live enough)
      ⊗ (λ args h named live enough. Safe.flushall-IsSafe rt p Excuse args h live enough)
      ⊗ (λ args h named live enough. Safe.sadd-IsSafe rt p Excuse args h live enough)
      ⊗ (λ args h named live enough. Safe.srem-IsSafe rt p Excuse args h live enough)
      ⊗ (λ args h named live enough. Safe.smembers-IsSafe rt p Excuse args h live enough)
      ⊗ (λ args h named live enough. Safe.sismember-IsSafe rt p Excuse args h live enough)
      ⊗ (λ args h named live enough. Safe.zadd-IsSafe rt p Excuse args h live enough)
      ⊗ (λ args h named live enough. Safe.zrange-IsSafe rt p Excuse args h live enough)
      ⊗ (λ args h named live enough. Safe.zcount-IsSafe rt p Excuse args h live enough)
      ⊗ (λ args h named live enough. Safe.incr-IsSafe rt p Excuse args h live enough)
      ⊗ (λ args h named live enough. Safe.incrby-IsSafe rt p Excuse args h live enough)
      ⊗ (λ args h named live enough. Safe.decr-IsSafe rt p Excuse args h live enough)
      ⊗ (λ args h named live enough. Safe.decrby-IsSafe rt p Excuse args h live enough)
      ⊗ (λ args h named live enough. Safe.append-IsSafe rt p Excuse args h live enough)
      ⊗ (λ args h named live enough. Safe.ping-IsSafe rt p Excuse args h live enough)
      ⊗ (λ args h named live enough. Safe.del-IsSafe rt p Excuse args h live enough)
      ⊗ nil

  pub command-IsFit :
      (fuel : ℕ) (name : Bytes) (v : Validation)
      → lookup name validations ≡ some v
      → (command : Command p) × (lookup name (commands rt p (do_command rt p fuel)) ≡ some command)
        × IsFit name v command
  command-IsFit fuel name v found =
      lookup-Matches name v
        (tables_match (do_command rt p fuel) λ args h d why two.
          subst (λ o. IsSound Excuse h o) (sym (do_never_returns rt p fuel args h d two))
            (runs_on why))
        found
