-- ===== src/Service/Dispatch/Modal.antt =====
-- A command does not look at its own name, nor at the queue and the mode of its handler.
pub mod Commands
use keyp.Base.{ℕ, ◌≡◌, refl, Bool, true, false, Option, none, some, List, ◌∷◌}
use keyp.Base.{if◌then◌else◌, length, get_elem?, leb, ltb, ◌==◌}
use keyp.Bytes.{Bytes}
use keyp.Decimal.{Parsed, parsed, bad_syntax, out_of_range, parse_int64}
use keyp.Domain.{Context, Error, Result}
use keyp.Storage.{is_empty}
use keyp.Service.{Args, Persister, Runtime, Handler, Outcome, returns, panics, unfinished, Command}
use keyp.Service.{on_arg, on_slice, slice_from, on_context}
use keyp.Service.Commands.{on_parsed, on_float}
use keyp.Service.Commands as Cmd

module _ {p : Persister} where
  -- The handler with this queue and mode.
  abbrev pub with_mode : List Args → Bool → Handler p → Handler p
  with_mode queue mode h = record h { mult_args = queue; mult_enabled = mode }

  abbrev pub in_mode :
      List Args → Bool → Outcome (Handler p × Result) → Outcome (Handler p × Result)
  in_mode queue mode (returns (h, r)) = returns (with_mode queue mode h, r)
  in_mode queue mode panics = panics
  in_mode queue mode unfinished = unfinished

  -- The second call ends as the first one does, but for the queue and the mode of the handler.
  pub record InMode (queue : List Args) (mode : Bool) (o o' : Outcome (Handler p × Result))
      : Type 0 where
    pub same : o' ≡ in_mode queue mode o

  abbrev pub IsModal : Command p → Type 0
  IsModal command =
      (queue : List Args) (mode : Bool) (x y : Bytes) (rest : Args) (h : Handler p)
      → InMode queue mode (command (x ∷ rest) h) (command (y ∷ rest) (with_mode queue mode h))

  module _ {queue : List Args} {mode : Bool} where
    pub alike : {o : Outcome (Handler p × Result)} → InMode queue mode o (in_mode queue mode o)
    alike = record { same = refl }

    pub on_arg-InMode :
        (o : Option Bytes) {k k' : Bytes → Outcome (Handler p × Result)}
        → ((x : Bytes) → InMode queue mode (k x) (k' x))
        → InMode queue mode (on_arg o k) (on_arg o k')
    on_arg-InMode none each = alike
    on_arg-InMode (some x) each = each x

    pub on_slice-InMode :
        (o : Option Args) {k k' : Args → Outcome (Handler p × Result)}
        → ((xs : Args) → InMode queue mode (k xs) (k' xs))
        → InMode queue mode (on_slice o k) (on_slice o k')
    on_slice-InMode none each = alike
    on_slice-InMode (some xs) each = each xs

    pub on_context-InMode :
        (o : Option Context) {k k' : Context → Outcome (Handler p × Result)}
        → ((ctx : Context) → InMode queue mode (k ctx) (k' ctx))
        → InMode queue mode (on_context o k) (on_context o k')
    on_context-InMode none each = alike
    on_context-InMode (some ctx) each = each ctx

    pub if-InMode :
        (b : Bool) {x x' y y' : Outcome (Handler p × Result)}
        → InMode queue mode x x'
        → InMode queue mode y y'
        → InMode queue mode (if b then x else y) (if b then x' else y')
    if-InMode true hx hy = hx
    if-InMode false hx hy = hy

    pub on_parsed-InMode :
        (r : Parsed) {bad bad' : Outcome (Handler p × Result)}
        {k k' : ℕ → Outcome (Handler p × Result)}
        → InMode queue mode bad bad'
        → ((n : ℕ) → InMode queue mode (k n) (k' n))
        → InMode queue mode (on_parsed r bad k) (on_parsed r bad' k')
    on_parsed-InMode (parsed n) b each = each n
    on_parsed-InMode bad_syntax b each = b
    on_parsed-InMode (out_of_range n) b each = b

    pub on_float-InMode :
        (r : Option ℕ) {bad bad' : Outcome (Handler p × Result)}
        {k k' : ℕ → Outcome (Handler p × Result)}
        → InMode queue mode bad bad'
        → ((n : ℕ) → InMode queue mode (k n) (k' n))
        → InMode queue mode (on_float r bad k) (on_float r bad' k')
    on_float-InMode none b each = b
    on_float-InMode (some n) b each = each n
