-- ===== src/Service/Dispatch/Safety.antt =====
-- What a command handler may do to its handler, and the shapes of which the handlers are made.
use keyp.Base.{
  ℕ, zero, suc, ◌≤◌, ◌<◌, ◌≡◌, refl, arith, Bool, true, false, Option, none, some, List, [], ◌∷◌,
}
use keyp.Base.{if◌then◌else◌, length, drop, get_elem?, le→leb}
use keyp.Bytes.{Bytes}
use keyp.Decimal.{Parsed, parsed, bad_syntax, out_of_range}
use keyp.Domain.{Context, Result}
use keyp.Service.{Args, Persister, Handler, Outcome, returns, unfinished, Command}
use keyp.Service.{arg, args_from, on_context}
use keyp.Service.Commands.{on_parsed, on_float}

found_arg : (args : Args) (i : ℕ) → i < length args → (x : Bytes) × (get_elem? args i ≡ some x)
found_arg [] i h = absurd (omega arith)
found_arg (x ∷ args) zero h = (x, refl)
found_arg (x ∷ args) (suc i) h = found_arg args i (omega arith)

module _ {p : Persister} where
  abbrev pub IsLive : Handler p → Type 0
  IsLive h = (ctx : Context) × (h.context ≡ some ctx)

  -- The handler `h'` has the queue of `h`, and a context.
  pub record Keeps (h h' : Handler p) : Type 0 where
    pub same_queue : h'.mult_args ≡ h.mult_args
    pub same_mode : h'.mult_enabled ≡ h.mult_enabled
    pub live : IsLive h'

  -- The command ends in no panic, it returns unless `Excuse` holds, and where it returns it keeps the
  -- queue and the context.
  pub data IsSound (Excuse : Type 0) (h : Handler p) : Outcome (Handler p × Result) → Type 0 where
    returned : {h' : Handler p} {r : Result} → Keeps h h' → IsSound Excuse h (returns (h', r))
    runs_on : Excuse → IsSound Excuse h unfinished

  abbrev pub IsSafe : Type 0 → ℕ → Command p → Type 0
  IsSafe Excuse n command =
      (args : Args) (h : Handler p) → IsLive h → n ≤ length args → IsSound Excuse h (command args h)

  module _ {Excuse : Type 0} {h : Handler p} where
    pub arg-IsSound :
        (args : Args) (i : ℕ) {k : Bytes → Outcome (Handler p × Result)}
        → i < length args
        → ((x : Bytes) → IsSound Excuse h (k x))
        → IsSound Excuse h (arg args i k)
    arg-IsSound args i less each = let (x, e) = found_arg args i less in rw e (each x)

    pub args_from-IsSound :
        (args : Args) (i : ℕ) {k : List Bytes → Outcome (Handler p × Result)}
        → i ≤ length args
        → ((xs : List Bytes) → IsSound Excuse h (k xs))
        → IsSound Excuse h (args_from args i k)
    args_from-IsSound args i less each = rw (le→leb i (length args) less) (each (drop i args))

    pub on_context-IsSound :
        (o : Option Context) {k : Context → Outcome (Handler p × Result)}
        → (ctx : Context) × (o ≡ some ctx)
        → ((ctx : Context) → IsSound Excuse h (k ctx))
        → IsSound Excuse h (on_context o k)
    on_context-IsSound none live each = absurd (ground (arith, live.1))
    on_context-IsSound (some ctx) live each = each ctx

    pub if-IsSound :
        (b : Bool) {yes no : Outcome (Handler p × Result)}
        → IsSound Excuse h yes
        → IsSound Excuse h no
        → IsSound Excuse h (if b then yes else no)
    if-IsSound true y n = y
    if-IsSound false y n = n

    pub on_parsed-IsSound :
        (r : Parsed) {bad : Outcome (Handler p × Result)} {k : ℕ → Outcome (Handler p × Result)}
        → IsSound Excuse h bad
        → ((n : ℕ) → IsSound Excuse h (k n))
        → IsSound Excuse h (on_parsed r bad k)
    on_parsed-IsSound (parsed n) b each = each n
    on_parsed-IsSound bad_syntax b each = b
    on_parsed-IsSound (out_of_range n) b each = b

    pub on_float-IsSound :
        (r : Option ℕ) {bad : Outcome (Handler p × Result)} {k : ℕ → Outcome (Handler p × Result)}
        → IsSound Excuse h bad
        → ((n : ℕ) → IsSound Excuse h (k n))
        → IsSound Excuse h (on_float r bad k)
    on_float-IsSound none b each = b
    on_float-IsSound (some n) b each = each n

    pub kept :
        IsLive h
        → {s : p.State} {r : Result} → IsSound Excuse h (returns (record h { storage = s }, r))
    kept live = returned (record { same_queue = refl; same_mode = refl; live = live })

    pub unchanged : IsLive h → {r : Result} → IsSound Excuse h (returns (h, r))
    unchanged live = returned (record { same_queue = refl; same_mode = refl; live = live })
