-- ===== src/Service/Dispatch/Serves.antt =====
-- `Apply` as a step of a handler that can serve.
use keyp.Base.{ℕ, ◌≡◌, refl, arith, Bool, true, false, none, some, List, [], ◌∷◌}
use keyp.Base.{length, if◌then◌else◌, Bool-cases, Option-cases, inl, inr, All-append}
use keyp.Bytes.{Bytes, codes, bytes_eq}
use keyp.Dict.{lookup, string_eq}
use keyp.Domain.{Context, Result}
use keyp.Service.{
  Args, Persister, Runtime, Handler, Outcome, returns, panics, unfinished, Validation,
  normalize_command_name, is_valid,
}
use keyp.Service.Dispatch.{validations, and_then, one_result, exec, accept, apply_named, apply}
use keyp.Service.Dispatch.Safety.{IsSound, returned, runs_on}
use keyp.Service.Dispatch.Tables.{IsDo, command-IsFit}
use keyp.Service.Dispatch.Queue.{
  IsQueued, IsConsistent, EndsWell, ended, never_ends, Keeps-IsConsistent, Executes-EndsWell,
  exec-Executes, is_valid-enough,
}

module _ (rt : Runtime) (p : Persister) (Excuse : Type 0) where
  one_result-EndsWell :
      {h : Handler p} (o : Outcome (Handler p × Result))
      → IsConsistent rt p Excuse h
      → IsSound Excuse h o
      → EndsWell rt p Excuse (and_then rt p o (one_result rt p))
  one_result-EndsWell (returns (h', r)) c (returned kept) =
      ended (Keeps-IsConsistent rt p Excuse c kept)
  one_result-EndsWell panics c sound = elim sound [ ]
  one_result-EndsWell unfinished c (runs_on why) = never_ends why

  if-EndsWell :
      (b : Bool) {yes no : Outcome (Handler p × List Result)}
      → (b ≡ true → EndsWell rt p Excuse yes)
      → (b ≡ false → EndsWell rt p Excuse no)
      → EndsWell rt p Excuse (if b then yes else no)
  if-EndsWell true y n = y refl
  if-EndsWell false y n = n refl

  exec-EndsWell :
      (fuel : ℕ) (h : Handler p)
      → (fuel ≡ 0 → Excuse)
      → IsConsistent rt p Excuse h
      → EndsWell rt p Excuse (exec rt p fuel h)
  exec-EndsWell fuel h fuelled c = elim (Bool-cases h.mult_enabled) [
    | inl on ↦
        Executes-EndsWell rt p Excuse c (exec-Executes rt p Excuse fuel h fuelled c.queue c.live on)
    | inr off ↦
        unfold exec in
        if-EndsWell h.mult_enabled (λ on. absurd (ground (arith, on, off))) (λ _. ended c)
  ]

  accept-EndsWell :
      (fuel : ℕ) (text : Bytes) (rest : Args) (h : Handler p) (v : Validation)
      → (IsDo rt p (text ∷ rest) → Excuse)
      → IsConsistent rt p Excuse h
      → lookup (normalize_command_name rt text) validations ≡ some v
      → is_valid v (normalize_command_name rt text) (length (text ∷ rest)) ≡ none
      → EndsWell rt p Excuse (accept rt p fuel (normalize_command_name rt text) (text ∷ rest) h)
  unfolding accept
  accept-EndsWell fuel text rest h v why c found valid =
      let enough =
        is_valid-enough rt p Excuse v (normalize_command_name rt text) (length (text ∷ rest))
          valid in
      let (command, there, fit) =
        command-IsFit rt p Excuse fuel (normalize_command_name rt text) v found in
      let queued : IsQueued rt p Excuse (text ∷ rest) = record {
        text = text;
        rest = rest;
        parts = refl;
        rule = v;
        known = found;
        enough = enough;
        plain = λ named. why (record { text = text; rest = rest; parts = refl; named = named });
      } in
      if-EndsWell h.mult_enabled
        (λ on. ended (record {
          live = c.live;
          queue = All-append (IsQueued rt p Excuse) h.mult_args _ c.queue (queued, tt);
        }))
        (λ off. rw there (
          one_result-EndsWell (command (text ∷ rest) h) c (
            fit (text ∷ rest) h
              (λ named.
                let it : IsDo rt p (text ∷ rest) = record {
                  text = text;
                  rest = rest;
                  parts = refl;
                  named = named;
                } in
                (it, why it))
              c.live enough)))

  apply_named-EndsWell :
      (fuel : ℕ) (text : Bytes) (rest : Args) (h : Handler p)
      → (IsDo rt p (text ∷ rest) → Excuse)
      → IsConsistent rt p Excuse h
      → EndsWell rt p Excuse
          (apply_named rt p fuel (normalize_command_name rt text) (text ∷ rest) h)
  unfolding apply_named
  apply_named-EndsWell fuel text rest h why c =
      let name : Bytes = normalize_command_name rt text in
      elim (Option-cases (lookup name validations)) [
        | inl unknown ↦ rw unknown (ended c)
        | inr (v, found) ↦ elim (Option-cases (is_valid v name (length (text ∷ rest)))) [
          | inl valid ↦ rw (found, valid) (accept-EndsWell fuel text rest h v why c found valid)
          | inr (e, refused) ↦ rw (found, refused) (ended c)
        ]
      ]

  -- A handler that has a context and queued only validated commands answers every command without
  -- a panic, and such a handler is left: no validated command indexes past its arguments, and
  -- only validated commands are queued. It fails to return only with an excuse, which is needed
  -- for no fuel and for a command DO, sent or queued.
  pub apply-EndsWell :
      (fuel : ℕ) (ctx : Context) (args : Args) (h : Handler p)
      → (fuel ≡ 0 → Excuse)
      → (IsDo rt p args → Excuse)
      → IsConsistent rt p Excuse h
      → EndsWell rt p Excuse (apply rt p fuel ctx args h)
  unfolding apply
  apply-EndsWell fuel ctx [] h fuelled why c = ended c
  apply-EndsWell fuel ctx (text ∷ rest) h fuelled why c =
      let name : Bytes = normalize_command_name rt text in
      elim (Bool-cases (bytes_eq name (codes "MULTI"))) [
        | inl multi ↦ rw multi (ended (record { live = c.live; queue = c.queue }))
        | inr not_multi ↦ elim (Bool-cases (bytes_eq name (codes "DISCARD"))) [
          | inl discard ↦ rw (not_multi, discard) (ended (record { live = c.live; queue = tt }))
          | inr not_discard ↦ elim (Bool-cases (bytes_eq name (codes "EXEC"))) [
            | inl run ↦ rw (not_multi, not_discard, run) (exec-EndsWell fuel h fuelled c)
            | inr other ↦
                rw (not_multi, not_discard, other) (apply_named-EndsWell fuel text rest h why c)
          ]
        ]
      ]
