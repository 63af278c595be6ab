-- ===== src/Service.antt =====
-- internal/service: the state of a handler, the storage that it calls and what its commands share
-- (handler.go, utils.go, clear.go, pool.go).
pub mod Format
pub mod Commands
pub mod Dispatch
pub mod Stored
use keyp.Base.{ℕ, zero, suc, ◌+◌, ◌-◌, ◌≡◌, Bool, true, false, ◌&&◌, ◌||◌, Option, none, some}
use keyp.Base.{List, [], ◌∷◌, ◌++◌, if◌then◌else◌, length, get_elem?, drop, leb, ltb, ◌==◌}
use keyp.Bytes.{Bytes, codes, bytes_eq}
use keyp.Int64.{ℤ, pos, negsuc}
use keyp.Domain.{Error, Context, Result, message, background_canceled, deadline_exceeded}
use keyp.Domain.{
  empty, canceled, invalid_float, invalid_integer, wrong_type, key_not_found, not_integer,
}
use keyp.Domain.{context_canceled, storage_wrong_type, not_found, lmdb}
use keyp.Lmdb.{Reply}
use mathlib.Core.List.{reverse}

abbrev pub Args : Type 0
Args = List Bytes

-- `Persister`: a method takes the state of the storage and gives it back.
pub record Persister : Type 1 where
  pub State : Type 0
  pub set : Context → Bytes → Bytes → State → State × Option Error
  pub get : Context → Bytes → State → State × Reply Bytes
  pub del : Context → List Bytes → State → State × Reply ℕ
  pub ttl : Context → Bytes → State → State × ℕ
  pub persist : Context → Bytes → State → State × Bool
  pub expire : Context → Bytes → ℕ → State → State
  pub exists : Context → Bytes → State → State × Bool
  pub llen : Context → Bytes → State → State × ℕ
  pub lindex : Context → Bytes → ℕ → State → State × Reply Bytes
  pub lset : Context → Bytes → ℕ → Bytes → State → State × Option Error
  pub lpush : Context → Bytes → List Bytes → State → State × ℕ
  pub rpush : Context → Bytes → List Bytes → State → State × ℕ
  pub lpop : Context → Bytes → State → State × Reply Bytes
  pub rpop : Context → Bytes → State → State × Reply Bytes
  pub lrange : Context → Bytes → ℕ → ℕ → State → State × Reply (List Bytes)
  pub flush_all : Context → State → State × Option Error
  pub sadd : Context → Bytes → List Bytes → State → State × ℕ
  pub srem : Context → Bytes → List Bytes → State → State × ℕ
  pub smembers : Context → Bytes → State → State × Reply (List Bytes)
  pub sismember : Context → Bytes → Bytes → State → State × Bool
  pub zadd : Context → Bytes → ℕ → Bytes → State → State × ℕ
  pub zrange : Context → Bytes → ℕ → ℕ → State → State × Reply (List Bytes)
  pub zcount : Context → Bytes → ℕ → ℕ → State → State × ℕ
  pub incr : Context → Bytes → State → State × Reply ℕ
  pub incr_by : Context → Bytes → ℕ → State → State × Reply ℕ
  pub decr : Context → Bytes → State → State × Reply ℕ
  pub decr_by : Context → Bytes → ℕ → State → State × Reply ℕ
  pub append : Context → Bytes → Bytes → State → State × ℕ

-- What the handlers use of code that is a table or not in the repository: `strconv.ParseFloat`, the
-- case and the spaces of names with characters that are not ASCII, and the texts of LMDB's errors.
pub record Runtime : Type 0 where
  pub parse_float : Bytes → Option ℕ
  pub unicode_normal : Bytes → Bytes
  pub lmdb_text : Error → Bytes

-- `Handler`; the context is nil between `Clear` and `Pool.Get`.
pub record Handler (p : Persister) : Type 0 where
  pub context : Option Context
  pub storage : p.State
  pub mult_args : List Args
  pub mult_enabled : Bool

-- How a call ends: with a value, in a panic, or not within the fuel.
pub data Outcome {ℓ} (A : Type ℓ) : Type ℓ where
  returns : A → Outcome A
  panics : Outcome A
  unfinished : Outcome A

abbrev pub Command : Persister → Type 0
Command p = Args → Handler p → Outcome (Handler p × Result)

-- `args[i]`
abbrev pub on_arg {ℓ} : {B : Type ℓ} → Option Bytes → (Bytes → Outcome B) → Outcome B
on_arg none k = panics
on_arg (some x) k = k x

abbrev pub arg {ℓ} : {B : Type ℓ} → Args → ℕ → (Bytes → Outcome B) → Outcome B
arg args i k = on_arg (get_elem? args i) k

-- `args[i:]`
abbrev pub slice_from : Args → ℕ → Option Args
slice_from args i = if leb i (length args) then some (drop i args) else none

abbrev pub on_slice {ℓ} : {B : Type ℓ} → Option Args → (Args → Outcome B) → Outcome B
on_slice none k = panics
on_slice (some xs) k = k xs

abbrev pub args_from {ℓ} : {B : Type ℓ} → Args → ℕ → (Args → Outcome B) → Outcome B
args_from args i k = on_slice (slice_from args i) k

-- A method of a nil context panics.
abbrev pub on_context {ℓ} : {B : Type ℓ} → Option Context → (Context → Outcome B) → Outcome B
on_context none k = panics
on_context (some ctx) k = k ctx

abbrev pub is_context_canceled : Error → Bool
is_context_canceled background_canceled = true
is_context_canceled deadline_exceeded = true
is_context_canceled _ = false

-- `err.Error()`
abbrev pub error_text : Runtime → Error → Bytes
error_text rt empty = codes "ERR empty command"
error_text rt canceled = codes "ERR operation canceled"
error_text rt invalid_float = codes "ERR value is not a valid float"
error_text rt invalid_integer = codes "ERR value is not an integer or out of range"
error_text rt wrong_type = codes "WRONGTYPE Operation against a key holding the wrong kind of value"
error_text rt key_not_found = codes "key not found"
error_text rt not_integer = codes "value is not an integer or out of range"
error_text rt context_canceled = codes "context canceled"
error_text rt storage_wrong_type =
    codes "WRONGTYPE Operation against a key holding the wrong kind of value"
error_text rt background_canceled = codes "context canceled"
error_text rt deadline_exceeded = codes "context deadline exceeded"
error_text rt (message text) = text
error_text rt not_found = rt.lmdb_text not_found
error_text rt (lmdb n) = rt.lmdb_text (lmdb n)

unfoldable pub has_prefix : Bytes → Bytes → Bool
has_prefix [] text = true
has_prefix (c ∷ prefix) [] = false
has_prefix (c ∷ prefix) (x ∷ text) = c == x && has_prefix prefix text

-- `strings.Contains(text, part)`
unfoldable pub contains : Bytes → Bytes → Bool
unfolding has_prefix
contains [] part = has_prefix part []
contains (x ∷ text) part = has_prefix part (x ∷ text) || contains text part

unfoldable pub is_key_not_found_error : Runtime → Error → Bool
unfolding contains
is_key_not_found_error rt e = contains (error_text rt e) (codes "key not found")

unfoldable pub invalid_args_error : Bytes → Error
invalid_args_error name =
    message (codes "ERR wrong number of arguments for '" ++ (name ++ codes "' command"))

unfoldable pub unknown_command_error : Bytes → Error
unknown_command_error name = message (codes "ERR unknown command '" ++ (name ++ codes "'"))

abbrev is_space : ℕ → Bool
is_space c = (leb 9 c && leb c 13) || c == 32

unfoldable pub trim_left : Bytes → Bytes
trim_left [] = []
trim_left (c ∷ text) = let rest = trim_left text in if is_space c then rest else c ∷ text

abbrev upper : ℕ → ℕ
upper c = if leb 97 c && leb c 122 then c - 32 else c

unfoldable pub to_upper : Bytes → Bytes
to_upper [] = []
to_upper (c ∷ text) = upper c ∷ to_upper text

unfoldable pub is_ascii : Bytes → Bool
is_ascii [] = true
is_ascii (c ∷ text) = ltb c 128 && is_ascii text

unfoldable pub normalize_command_name : Runtime → Bytes → Bytes
unfolding trim_left to_upper is_ascii
normalize_command_name rt name =
    if is_ascii name
    then to_upper (reverse (trim_left (reverse (trim_left name))))
    else rt.unicode_normal name

pub record Validation : Type 0 where
  pub min_args : ℕ
  pub max_args : ℤ

-- `validation.MaxArgs > 0 && argCount > validation.MaxArgs`
abbrev pub exceeds : ℤ → ℕ → Bool
exceeds (pos n) count = ltb 0 n && ltb n count
exceeds (negsuc n) count = false

unfoldable pub is_valid : Validation → Bytes → ℕ → Option Error
is_valid v name count =
    if ltb count v.min_args
    then some (invalid_args_error name)
    else if exceeds v.max_args count
    then some (invalid_args_error name)
    else none

module _ {p : Persister} where
  -- `NewHandler`: the state that a handler of the pool starts with.
  unfoldable pub new_handler : p.State → Handler p
  new_handler s = record {
    context = some (record { db = some 0; id = none; done = λ i. none });
    storage = s;
    mult_args = [];
    mult_enabled = false;
  }

  -- `Pool.Get` hands out a handler for a context.

  unfoldable pub pool_get : Context → Handler p → Handler p
  pool_get ctx h = record h { context = some ctx }

  unfoldable pub clear : Handler p → Handler p
  clear h = record h { mult_enabled = false; mult_args = []; context = none }
