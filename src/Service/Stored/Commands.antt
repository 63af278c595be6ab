-- ===== src/Service/Stored/Commands.antt =====
-- Commands of a connection down to the contents of the environment.
use keyp.Base.{
  ℕ, ◌≡◌, refl, ap, ◌∙◌, ◌<◌, ltb, leb, arith, lt→ltb, true, false, none, some, List, [], ◌∷◌,
  length,
}
use keyp.Bytes.{Bytes, codes}
unfoldable use keyp.Bytes.{bytes_eq}
use keyp.Int64.{pos}
use keyp.Dict.{Dict, string_eq}
unfoldable use keyp.Dict.{lookup}
use keyp.Domain.{Context, ok_bytes, set_ok, wrong_type}
use keyp.Lmdb.{Lmdb, ok, IsStore, IsReliable}
use keyp.Service.{Args, Persister, Runtime, Handler, returns, normalize_command_name, Validation}
unfoldable use keyp.Service.{is_valid}
use keyp.Service.Commands.{respond, fail}
use keyp.Service.Commands as Cmd
use keyp.Service.Dispatch.{apply, commands, validations, do_command}
use keyp.Service.Dispatch.Transaction.{apply_all, apply-runs}
use keyp.Service.Stored.{stored, moment}
use keyp.Storage.{Client}
use keyp.Storage.Lists.{is_list_data}
use keyp.Storage.ListCommands.Ready.{IsReady, IsReady-again}
use keyp.Storage.ListCommands.Pushes.{Differs, Differs-here, push_rejects}
use keyp.Storage.Strings as Strings
use keyp.Storage.Strings.Refine.{get_refines, set_refines, answer_for}

-- A handler outside a transaction, with what it queued before.
abbrev pub serving : (p : Persister) → Context → p.State → List Args → Handler p
serving p ctx s queue = record {
  context = some ctx;
  storage = s;
  mult_args = queue;
  mult_enabled = false;
}

abbrev pub three_to_five : Validation
three_to_five = record { min_args = 3; max_args = pos 5 }

abbrev pub two_only : Validation
two_only = record { min_args = 2; max_args = pos 2 }

pub set_known : lookup (codes "SET") validations ≡ some three_to_five
unfolding validations lookup bytes_eq
set_known = refl

pub get_known : lookup (codes "GET") validations ≡ some two_only
unfolding validations lookup bytes_eq
get_known = refl

module _ (rt : Runtime) (p : Persister) where
  pub set_found :
      (fuel : ℕ) → lookup (codes "SET") (commands rt p (do_command rt p fuel)) ≡ some (Cmd.set rt p)
  unfolding commands lookup bytes_eq
  set_found fuel = refl

  pub get_found :
      (fuel : ℕ) → lookup (codes "GET") (commands rt p (do_command rt p fuel)) ≡ some (Cmd.get rt p)
  unfolding commands lookup bytes_eq
  get_found fuel = refl

module _ (rt : Runtime) {l : Lmdb} (s : IsStore l) (r : IsReliable l) where
  module _ (order : List Bytes → List Bytes) (score_order : Dict Bytes ℕ → Dict Bytes ℕ)
      (now : ℕ) where
    abbrev client : Persister
    client = stored l order score_order

    set_step :
        (fuel : ℕ) (ctx ctx' : Context) (key value : Bytes) (c c' : Client l) (queue : List Args)
        → Strings.set l ctx key value c ≡ (c', none)
        → apply rt client fuel ctx'
            (codes "SET" ∷ key ∷ value ∷ [])
            (serving client ctx (moment now c) queue)
          ≡ returns (serving client ctx (moment now c') queue, respond ok_bytes ∷ [])
    unfolding Cmd.set set_ok normalize_command_name is_valid
    set_step fuel ctx ctx' key value c c' queue stored_it =
        apply-runs rt client fuel ctx' (codes "SET") (key ∷ value ∷ [])
          (serving client ctx (moment now c) queue) (codes "SET") three_to_five (Cmd.set rt client)
          refl set_known refl (set_found rt client fuel) refl
        ∙ rw stored_it refl

    pub get_step :
        (fuel : ℕ) (ctx ctx' : Context) (key value : Bytes) (c c' : Client l) (queue : List Args)
        → Strings.get l ctx key c ≡ (c', ok value)
        → apply rt client fuel ctx'
            (codes "GET" ∷ key ∷ [])
            (serving client ctx (moment now c) queue)
          ≡ returns (serving client ctx (moment now c') queue, respond value ∷ [])
    unfolding Cmd.get normalize_command_name is_valid
    get_step fuel ctx ctx' key value c c' queue found =
        apply-runs rt client fuel ctx' (codes "GET") (key ∷ [])
          (serving client ctx (moment now c) queue) (codes "GET") two_only (Cmd.get rt client) refl
          get_known refl (get_found rt client fuel) refl
        ∙ rw found refl

    -- On a reliable environment, with a live context, the database of the context open and a key
    -- of 1 to 511 bytes: SET and then GET of the key, sent outside a transaction: the answers are
    -- OK and the value, the contents differ at that key alone, and the queue is not touched.
    pub set-get :
        (fuel : ℕ) (ctx ctx' : Context) (key value : Bytes) (c : Client l) (d : ℕ)
        (queue : List Args)
        → IsReady l ctx key c d
        → (t : l.Env) × (apply_all rt client fuel ctx'
              ((codes "SET" ∷ key ∷ value ∷ []) ∷ (codes "GET" ∷ key ∷ []) ∷ [])
              (serving client ctx (moment now c) queue)
            ≡ returns (
              serving client ctx (moment now (record c { env = t })) queue,
              respond ok_bytes ∷ respond value ∷ [],
            ))
          × Differs l c.env d key (ok value) t
    unfolding apply_all
    set-get fuel ctx ctx' key value c d queue ready =
        let (t, set_run, differs) = set_refines s r ctx key value c d ready in
        let c' : Client l = record c { env = t } in
        let found : Strings.get l ctx key c' ≡ (c', ok value) =
          get_refines r ctx key c' d (IsReady-again ready t)
          ∙ ap (λ o. (c', answer_for o)) (Differs-here differs) in
        (
          t,
          rw
              (
                set_step fuel ctx ctx' key value c c' queue set_run,
                get_step fuel ctx ctx' key value c' c' queue found,
              )
              refl,
          differs,
        )

    -- On a reliable environment, with a live context, the database of the context open and a key
    -- of 1 to 511 bytes: The handlers of RPUSH and LPUSH answer with the error of a wrong type
    -- where the value of the key is not empty and no list, and nothing changes.
    pub push_wrong_type :
        (ctx : Context) (text key value : Bytes) (values : List Bytes) (bytes : Bytes)
        (c : Client l) (d : ℕ) (queue : List Args)
        → IsReady l ctx key c d
        → l.get c.env d key ≡ ok bytes
        → 0 < length bytes
        → is_list_data bytes ≡ false
        → (Cmd.rpush rt client
              (text ∷ key ∷ value ∷ values)
              (serving client ctx (moment now c) queue)
            ≡ returns (serving client ctx (moment now c) queue, fail wrong_type))
          × (Cmd.lpush rt client
                (text ∷ key ∷ value ∷ values)
                (serving client ctx (moment now c) queue)
              ≡ returns (serving client ctx (moment now c) queue, fail wrong_type))
    unfolding Cmd.rpush Cmd.lpush Cmd.pushed
    push_wrong_type ctx text key value values bytes c d queue ready found some_bytes wrong =
        let (no_rpush, no_lpush) =
          push_rejects s r ctx key c d bytes (value ∷ values) ready found wrong in
        let there : Strings.get l ctx key c ≡ (c, ok bytes) =
          get_refines r ctx key c d ready ∙ ap (λ o. (c, answer_for o)) found in
        let long : ltb 0 (length bytes) ≡ true = lt→ltb 0 (length bytes) some_bytes in
        let enough : leb 2 (length (text ∷ key ∷ value ∷ values)) ≡ true = ground arith in
        (rw (enough, no_rpush, there, long) refl, rw (enough, no_lpush, there, long) refl)
