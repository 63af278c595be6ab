-- ===== src/Service/Stored/Expiring.antt =====
-- SET with the option EX: the value until the timer fires, and nothing after.
use keyp.Base.{ℕ, ◌%◌, ◌^◌, ◌≡◌, refl, sym, ap, ◌∙◌, ◌<◌, arith, none, List, [], ◌∷◌}
use mathlib.Core.Path.{subst}
use keyp.Bytes.{Bytes, codes}
unfoldable use keyp.Bytes.{bytes_eq}
use keyp.Decimal.{format_int64}
use keyp.Decimal.RoundTrip.{parse_int64-format_int64}
use keyp.Dict.{Dict, string_eq, delete, nat_eq}
use keyp.Domain.{Context, ok_bytes, set_ok, set_nil, new_result}
use keyp.Lmdb.{Lmdb, ok, err, IsStore, IsReliable}
use keyp.Service.{Args, Persister, Runtime, returns, normalize_command_name}
unfoldable use keyp.Service.{is_valid, is_key_not_found_error}
use keyp.Domain.{key_not_found}
use keyp.Service.Commands.{respond}
use keyp.Service.Commands as Cmd
use keyp.Service.Dispatch.{apply}
use keyp.Service.Dispatch.Transaction.{apply-runs}
use keyp.Service.Stored.{stored, moment}
use keyp.Service.Stored.Commands.{
  serving, three_to_five, two_only, set_known, set_found, get_known, get_found, get_step,
}
use keyp.Storage.{Client}
use keyp.Storage.Expiry.{fire}
unfoldable use keyp.Storage.Expiry.{expire}
use keyp.Storage.Expiry.Laws.{fired}
use keyp.Storage.ListCommands.Ready.{IsReady}
use keyp.Storage.ListCommands.Pushes.{Differs-here}
use keyp.Storage.Strings as Strings
use keyp.Storage.Strings.Refine.{get_refines, set_refines, answer_for}

module _ {l : Lmdb} where
  -- EXPIRE and its timer leave the open databases alone.
  IsReady-kept :
      {ctx : Context} {key : Bytes} {c : Client l} {d : ℕ} (c' : Client l)
      → c'.dbi ≡ c.dbi
      → IsReady l ctx key c d
      → IsReady l ctx key c' d
  IsReady-kept c' same ready = record {
    live = ready.live;
    opened = rw same ready.opened;
    key_given = ready.key_given;
    key_short = ready.key_short;
  }

module _ (rt : Runtime) {l : Lmdb} (s : IsStore l) (r : IsReliable l) where
  module _ (order : List Bytes → List Bytes) (score_order : Dict Bytes ℕ → Dict Bytes ℕ) where
    abbrev client : Persister
    client = stored l order score_order

    set_ex_step :
        (now fuel : ℕ) (ctx ctx' : Context) (key value : Bytes) (secs : ℕ) (c c' : Client l)
        (queue : List Args)
        → secs < 2 ^ 32
        → Strings.set l ctx key value c ≡ (c', none)
        → apply rt client fuel ctx'
            (codes "SET" ∷ key ∷ value ∷ codes "EX" ∷ format_int64 secs ∷ [])
            (serving client ctx (moment now c) queue)
          ≡ returns (
            serving client ctx (moment now (expire now ctx key secs c')) queue,
            respond ok_bytes ∷ [],
          )
    unfolding Cmd.set Cmd.set_option set_ok normalize_command_name is_valid bytes_eq
    set_ex_step now fuel ctx ctx' key value secs c c' queue short stored_it =
        let whole : secs % 2 ^ 32 ≡ secs = omega arith in
        apply-runs rt client fuel ctx' (codes "SET")
          (key ∷ value ∷ codes "EX" ∷ format_int64 secs ∷ [])
          (serving client ctx (moment now c) queue) (codes "SET") three_to_five (Cmd.set rt client)
          refl set_known refl (set_found rt client fuel) refl
        ∙ rw (stored_it, parse_int64-format_int64 secs (omega arith), whole) refl

    get_missing_step :
        (now fuel : ℕ) (ctx ctx' : Context) (key : Bytes) (c : Client l) (queue : List Args)
        → Strings.get l ctx key c ≡ (c, err key_not_found)
        → apply rt client fuel ctx'
            (codes "GET" ∷ key ∷ [])
            (serving client ctx (moment now c) queue)
          ≡ returns (serving client ctx (moment now c) queue, new_result ∷ [])
    unfolding Cmd.get set_nil normalize_command_name is_valid is_key_not_found_error
    get_missing_step now fuel ctx ctx' key c queue missing =
        apply-runs rt client fuel ctx' (codes "GET") (key ∷ [])
          (serving client ctx (moment now c) queue) (codes "GET") two_only (Cmd.get rt client) refl
          get_known refl (get_found rt client fuel) refl
        ∙ rw missing refl

    -- On a reliable environment, with a live context, the database of the context open and a key
    -- of 1 to 511 bytes: SET of the key with a value, the option EX and the text of a number of
    -- seconds below 2 ^ 32, sent outside a transaction: the answer is OK. GET of the key then
    -- answers with the value, and, after the timer fired that SET started, with nil. The queue
    -- stays. Each command comes at a time of its own.
    pub set_ex-get :
        (now soon later fuel : ℕ) (ctx ctx' : Context) (key value : Bytes) (secs : ℕ) (c : Client l)
        (d : ℕ) (queue : List Args)
        → IsReady l ctx key c d
        → secs < 2 ^ 32
        → (c' : Client l) × (apply rt client fuel ctx'
              (codes "SET" ∷ key ∷ value ∷ codes "EX" ∷ format_int64 secs ∷ [])
              (serving client ctx (moment now c) queue)
            ≡ returns (serving client ctx (moment now c') queue, respond ok_bytes ∷ []))
          × (apply rt client fuel ctx'
                (codes "GET" ∷ key ∷ [])
                (serving client ctx (moment soon c') queue)
              ≡ returns (serving client ctx (moment soon c') queue, respond value ∷ []))
          × (apply rt client fuel ctx'
                (codes "GET" ∷ key ∷ [])
                (serving client ctx (moment later (fire l c.next_timer c')) queue)
              ≡ returns (
                serving client ctx (moment later (fire l c.next_timer c')) queue,
                new_result ∷ [],
              ))
    unfolding expire
    set_ex-get now soon later fuel ctx ctx' key value secs c d queue ready short =
        let (t, set_run, differs) = set_refines s r ctx key value c d ready in
        let c' : Client l = expire now ctx key secs (record c { env = t }) in
        let there : Strings.get l ctx key c' ≡ (c', ok value) =
          get_refines r ctx key c' d (IsReady-kept {c = c} c' refl ready)
          ∙ ap (λ o. (c', answer_for o)) (Differs-here differs) in
        let (t', run, gone) = fired s r ctx key now secs c d t ready in
        let c'' : Client l = fire l c.next_timer c' in
        let k : Client l = record c' { env = t'; timers = delete c.next_timer c'.timers } in
        let missing : Strings.get l ctx key c'' ≡ (c'', err key_not_found) =
          subst (λ (x : Client l). Strings.get l ctx key x ≡ (x, err key_not_found)) (sym run)
            (get_refines r ctx key k d (IsReady-kept {c = c} k refl ready)
              ∙ ap (λ o. (k, answer_for o)) (Differs-here gone)) in
        (
          c',
          set_ex_step now fuel ctx ctx' key value secs c (record c { env = t }) queue short set_run,
          get_step rt s r order score_order soon fuel ctx ctx' key value c' c' queue there,
          get_missing_step later fuel ctx ctx' key c'' queue missing,
        )
