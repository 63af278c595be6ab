-- ===== src/Examples/Handlers.antt =====
-- Runs of the handler: commands, transactions and DO.
use keyp.Base.{◌≡◌, ◌∙◌, ap, refl, arith, true, false, none, some, List, [], ◌∷◌, ◌++◌}
use keyp.Bytes.{codes}
unfoldable use keyp.Bytes.{bytes_eq}
use keyp.Int64.{pos}
unfoldable use keyp.Dict.{lookup}
use keyp.Domain.{ok_bytes, wrong_type}
use keyp.Lmdb.{ok}
use keyp.Lmdb.Memory.{memory, Contents, memory-IsStore, memory-IsReliable}
use keyp.Service.{Args, Persister, Runtime, Handler, returns, unfinished, is_valid}
unfoldable use keyp.Service.{normalize_command_name}
use keyp.Service.Commands.{respond, fail}
use keyp.Service.Commands as Cmd
use keyp.Service.Dispatch.{do_command, exec, apply}
unfoldable use keyp.Service.Dispatch.{validations}
use keyp.Service.Dispatch.Tables.{IsDo, do_never_returns}
use keyp.Service.Dispatch.Queue.{IsQueued, EndsWell, Executes, exec-Executes}
use keyp.Service.Dispatch.Serves.{apply-EndsWell}
use keyp.Service.Dispatch.Direct.{IsDirect, in_transaction, transaction-direct}
use keyp.Service.Dispatch.Replies.{Replies, apply-Replies}
use keyp.Service.Dispatch.Transaction.{
  IsNamed, IsAccepted, apply_all, all_queued, after_results, transaction-discard,
}
use keyp.Service.Format.{format_array}
use keyp.Service.Format.Reader.{read_array, read_array-format_array}
use keyp.Service.Stored.{stored, moment}
use keyp.Service.Stored.Commands.{serving, set-get, push_wrong_type}
use keyp.Storage.ListCommands.Pushes.{Differs}
use keyp.Examples.{ctx, key, contents, text_contents, holding, ready, stored_text, text_is_no_list}

abbrev pub runtime : Runtime
runtime = record { parse_float = λ t. none; unicode_normal = λ t. t; lmdb_text = λ e. [] }

abbrev pub client : Persister
client = stored memory (λ xs. xs) (λ xs. xs)

abbrev pub get_args : Args
get_args = codes "get" ∷ key ∷ []

abbrev queue : List Args
queue = get_args ∷ get_args ∷ []

abbrev pub transacting : Handler client
transacting = record {
  context = some ctx;
  storage = moment 100 (holding contents);
  mult_args = queue;
  mult_enabled = true;
}

abbrev outside : Handler client
outside = serving client ctx (moment 100 (holding text_contents)) []

first_text {ℓ} : {A : Type ℓ} → A → List A → A
first_text x [] = x
first_text x (y ∷ ys) = y

pub get_is_not_do : IsDo runtime client get_args → ⊥
unfolding normalize_command_name first_text
get_is_not_do d =
    let same : codes "get" ≡ d.text = ap (first_text []) d.parts in
    let named : codes "GET" ≡ codes "DO" = ap (normalize_command_name runtime) same ∙ d.named in
    ground (arith, named)

get_is_not_exec : ¬ IsNamed runtime (codes "EXEC") get_args
unfolding normalize_command_name first_text
get_is_not_exec d =
    let same : codes "get" ≡ d.text = ap (first_text []) d.parts in
    let named : codes "GET" ≡ codes "EXEC" = ap (normalize_command_name runtime) same ∙ d.named in
    ground (arith, named)

pub get_args-IsQueued : IsQueued runtime client ⊥ get_args
unfolding validations lookup bytes_eq normalize_command_name
get_args-IsQueued = record {
  text = codes "get";
  rest = key ∷ [];
  parts = refl;
  rule = record { min_args = 2; max_args = pos 2 };
  known = refl;
  enough = omega arith;
  plain = λ named.
      get_is_not_do (record { text = codes "get"; rest = key ∷ []; parts = refl; named = named });
}

get_args-IsAccepted : IsAccepted runtime get_args
unfolding validations lookup bytes_eq normalize_command_name is_valid
get_args-IsAccepted = record {
  text = codes "get";
  rest = key ∷ [];
  parts = refl;
  rule = record { min_args = 2; max_args = pos 2 };
  known = refl;
  valid = refl;
}

IsNamed-multi : IsNamed runtime (codes "MULTI") (codes "multi" ∷ [])
unfolding normalize_command_name
IsNamed-multi = record { text = codes "multi"; rest = []; parts = refl; named = refl }

IsNamed-discard : IsNamed runtime (codes "DISCARD") (codes " Discard" ∷ [])
unfolding normalize_command_name
IsNamed-discard = record { text = codes " Discard"; rest = []; parts = refl; named = refl }

IsNamed-exec : IsNamed runtime (codes "EXEC") (codes "EXEC" ∷ [])
unfolding normalize_command_name
IsNamed-exec = record { text = codes "EXEC"; rest = []; parts = refl; named = refl }

IsDo-args : IsDo runtime client (codes "do" ∷ codes "PING" ∷ [])
unfolding normalize_command_name
IsDo-args = record { text = codes "do"; rest = codes "PING" ∷ []; parts = refl; named = refl }

do_never_returns_example :
    do_command runtime client 1000 (codes "do" ∷ codes "PING" ∷ []) outside ≡ unfinished
do_never_returns_example =
    do_never_returns runtime client 1000 (codes "do" ∷ codes "PING" ∷ []) outside IsDo-args
      (omega arith)

exec-Executes_example : Executes runtime client ⊥ transacting 2 (exec runtime client 5 transacting)
exec-Executes_example =
    exec-Executes runtime client ⊥ 5 transacting (λ none_left. absurd (omega arith))
      (get_args-IsQueued, (get_args-IsQueued, tt)) (ctx, refl) refl

apply-EndsWell_example : EndsWell runtime client ⊥ (apply runtime client 5 ctx get_args transacting)
apply-EndsWell_example =
    apply-EndsWell runtime client ⊥ 5 ctx get_args transacting (λ none_left. absurd (omega arith))
      get_is_not_do
      (record { live = (ctx, refl); queue = (get_args-IsQueued, (get_args-IsQueued, tt)) })

apply-Replies_example : Replies ⊥ (apply runtime client 5 ctx get_args transacting)
apply-Replies_example =
    apply-Replies runtime client ⊥ 5 ctx get_args transacting (λ none_left. absurd (omega arith))
      get_is_not_do get_is_not_exec
      (record { live = (ctx, refl); queue = (get_args-IsQueued, (get_args-IsQueued, tt)) })

transaction-discard_example :
    apply_all runtime client 5 ctx
      ((codes "multi" ∷ []) ∷ (queue ++ (codes " Discard" ∷ []) ∷ []))
      outside
    ≡ returns (
      record outside { mult_enabled = false; mult_args = [] },
      respond ok_bytes ∷ (all_queued runtime client queue ++ respond ok_bytes ∷ []),
    )
transaction-discard_example =
    transaction-discard runtime client 5 ctx (codes "multi" ∷ []) queue (codes " Discard" ∷ [])
      outside IsNamed-multi (get_args-IsAccepted, (get_args-IsAccepted, tt)) IsNamed-discard

get_args-IsDirect : IsDirect runtime client get_args
unfolding normalize_command_name get_args-IsAccepted
get_args-IsDirect = record {
  accepted = get_args-IsAccepted;
  two = omega arith;
  other = λ named.
      get_is_not_do (record { text = codes "get"; rest = key ∷ []; parts = refl; named = named });
}

transaction-direct_example :
    apply_all runtime client 5 ctx
      ((codes "multi" ∷ []) ∷ (queue ++ (codes "EXEC" ∷ []) ∷ []))
      outside
    ≡ after_results runtime client
        (respond ok_bytes ∷ all_queued runtime client queue)
        (in_transaction runtime client queue (apply_all runtime client 4 ctx queue outside))
transaction-direct_example =
    transaction-direct runtime client 4 ctx (codes "multi" ∷ []) queue (codes "EXEC" ∷ []) outside
      IsNamed-multi (get_args-IsDirect, (get_args-IsDirect, tt)) IsNamed-exec refl

set-get_example :
    (t : Contents) × (apply_all runtime client 5 ctx
        ((codes "SET" ∷ key ∷ codes "v" ∷ []) ∷ (codes "GET" ∷ key ∷ []) ∷ [])
        (serving client ctx (moment 100 (holding contents)) [])
      ≡ returns (
        serving client ctx (moment 100 (holding t)) [],
        respond ok_bytes ∷ respond (codes "v") ∷ [],
      ))
    × Differs memory contents 1 key (ok (codes "v")) t
set-get_example =
    set-get runtime memory-IsStore memory-IsReliable (λ xs. xs) (λ xs. xs) 100 5 ctx ctx key
      (codes "v") (holding contents) 1 [] (ready contents)

push_wrong_type_example :
    (Cmd.rpush runtime client (codes "rpush" ∷ key ∷ codes "v" ∷ []) outside
      ≡ returns (outside, fail wrong_type))
    × (Cmd.lpush runtime client (codes "rpush" ∷ key ∷ codes "v" ∷ []) outside
        ≡ returns (outside, fail wrong_type))
push_wrong_type_example =
    push_wrong_type runtime memory-IsStore memory-IsReliable (λ xs. xs) (λ xs. xs) 100 ctx
      (codes "rpush") key (codes "v") [] (codes "12") (holding text_contents) 1 []
      (ready text_contents) stored_text (omega arith) text_is_no_list

read_array-format_array_example :
    read_array (format_array (codes "a" ∷ [] ∷ []) ++ codes "rest")
    ≡ some (codes "a" ∷ [] ∷ [], codes "rest")
read_array-format_array_example =
    read_array-format_array (codes "a" ∷ [] ∷ []) (codes "rest") (omega arith)
      (omega arith, (omega arith, tt))
