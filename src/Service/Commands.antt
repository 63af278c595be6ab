-- ===== src/Service/Commands.antt =====
-- The command handlers of internal/service, one function for each file.
use keyp.Base.{ℕ, ◌+◌, ◌-◌, ◌/◌, ◌%◌, ◌^◌, Bool, false, Option, none, some}
use keyp.Base.{List, [], ◌∷◌, if◌then◌else◌, length, leb, ltb, ◌==◌}
use keyp.Bytes.{Bytes, codes, bytes_eq}
use keyp.Int64.{is_negative}
use keyp.Decimal.{
  Parsed, parsed, bad_syntax, out_of_range, value_of, parse_int64, format_uint, format_int64,
}
use keyp.Domain.{Error, Context, Result, new_result, set_canceled, set_nil, set_ok, ok_bytes, pong}
use keyp.Domain.{invalid_integer, invalid_float, wrong_type}
use keyp.Lmdb.{Reply, ok, err}
use keyp.Storage.{is_empty}
use keyp.Service.{Args, Persister, Runtime, Handler, Outcome, returns, Command}
use keyp.Service.{
  arg, args_from, on_context, is_context_canceled, is_key_not_found_error, invalid_args_error,
}
use keyp.Service.Format.{format_bool, format_array}

abbrev pub respond : Bytes → Result
respond bytes = record { error = none; response = some bytes }

abbrev pub fail : Error → Result
fail e = record { error = some e; response = none }

-- The error, or what the value is formatted to.
abbrev pub respond_or {ℓ} : {A : Type ℓ} → (A → Bytes) → Reply A → Result
respond_or format (ok a) = respond (format a)
respond_or format (err e) = fail e

abbrev pub same_bytes : Bytes → Bytes
same_bytes bytes = bytes

-- The int64 that a text is read as, an error that is ignored included.
abbrev pub int_arg : Bytes → ℕ
int_arg text = value_of (parse_int64 text)

abbrev pub on_parsed {ℓ} : {B : Type ℓ} → Parsed → B → (ℕ → B) → B
on_parsed (parsed n) bad k = k n
on_parsed bad_syntax bad k = bad
on_parsed (out_of_range n) bad k = bad

abbrev pub on_float {ℓ} : {B : Type ℓ} → Option ℕ → B → (ℕ → B) → B
on_float none bad k = bad
on_float (some n) bad k = k n

-- `uint32(ttl)` of an int64, and `ttl/1000`, which rounds towards 0.
abbrev pub to_uint32 : ℕ → ℕ
to_uint32 n = n % 2 ^ 32

abbrev pub thousandth : ℕ → ℕ
thousandth n = if is_negative n then (2 ^ 64 - (2 ^ 64 - n) / 1000) % 2 ^ 64 else n / 1000

module _ (rt : Runtime) (p : Persister) where
  -- The handler after its storage was called.
  abbrev store : Handler p → p.State → Handler p
  store h s = record h { storage = s }

  abbrev get_result : Reply Bytes → Result
  get_result (ok bytes) = respond bytes
  get_result (err e) =
      if is_context_canceled e
      then set_canceled new_result
      else if is_key_not_found_error rt e
      then set_nil new_result
      else fail e

  unfoldable pub get : Command p
  get args h = arg args 1 λ key.
      on_context h.context
        λ ctx. let (s, found) = p.get ctx key h.storage in returns (store h s, get_result found)

  -- The option of SET: the storage after `Expire`, or the error of a text that is no integer.
  unfoldable pub set_option : Context → Bytes → Bytes → Bytes → p.State → Option p.State
  set_option ctx key option text s =
      if bytes_eq option (codes "EX")
      then on_parsed (parse_int64 text) none (λ n. some (p.expire ctx key (to_uint32 n) s))
      else if bytes_eq option (codes "PX")
      then on_parsed (parse_int64 text) none
          (λ n. some (p.expire ctx key (to_uint32 (thousandth n)) s))
      else some s

  abbrev pub set_done : Handler p → p.State → Option p.State → Handler p × Result
  set_done h s none = (store h s, fail invalid_integer)
  set_done h s (some s') = (store h s', set_ok new_result)

  abbrev set_failed : Error → Result
  set_failed e = if is_context_canceled e then set_canceled new_result else fail e

  abbrev pub set_stored :
      Args → Context → Bytes → Handler p → p.State → Option Error → Outcome (Handler p × Result)
  set_stored args ctx key h s (some e) = returns (store h s, set_failed e)
  set_stored args ctx key h s none =
      if leb 5 (length args)
      then arg args 3
          (λ option. arg args 4 λ text. returns (set_done h s (set_option ctx key option text s)))
      else returns (store h s, set_ok new_result)

  unfoldable pub set : Command p
  set args h = arg args 1 λ key. arg args 2 λ value.
      on_context h.context
        λ ctx. let (s, e) = p.set ctx key value h.storage in set_stored args ctx key h s e

  abbrev del_result : Reply ℕ → Result
  del_result (ok n) = respond (format_uint n)
  del_result (err e) =
      if is_context_canceled e then set_canceled new_result else respond (format_uint 0)

  unfoldable pub del : Command p
  del args h =
      if ltb (length args) 2
      then returns (h, fail (invalid_args_error (codes "DEL")))
      else args_from args 1 λ keys. on_context h.context λ ctx.
        let (s, deleted) = p.del ctx keys h.storage in returns (store h s, del_result deleted)

  unfoldable pub sel : Command p
  sel args h = arg args 1 λ text. on_context h.context λ ctx. returns (
    record h { context = some (record ctx { db = some (int_arg text % 256) }) },
    set_ok new_result,
  )

  -- `for _, key := range keys`
  unfoldable pub exists_loop : Context → List Bytes → ℕ → p.State → p.State × ℕ
  exists_loop ctx [] count s = (s, count)
  exists_loop ctx (key ∷ keys) count s =
      let (s', there) = p.exists ctx key s in
      exists_loop ctx keys (if there then count + 1 else count) s'

  unfoldable pub exists : Command p
  unfolding exists_loop
  exists args h = args_from args 1 λ keys.
      if is_empty keys
      then returns (h, respond (format_int64 0))
      else on_context h.context λ ctx.
        let (s, count) = exists_loop ctx keys 0 h.storage in
        returns (store h s, respond (format_int64 count))

  unfoldable pub ttl : Command p
  ttl args h = arg args 1 λ key. on_context h.context λ ctx.
      let (s, secs) = p.ttl ctx key h.storage in
      let (s', there) = p.exists ctx key s in
      if secs == 0
      then returns (store h s', respond (if there then codes "-1" else codes "-2"))
      else returns
          (store h s, respond (if secs == 2 ^ 32 - 1 then codes "-1" else format_uint secs))

  unfoldable pub expire : Command p
  expire args h = arg args 1 λ key. arg args 2 λ text. on_context h.context λ ctx.
      returns (store h (p.expire ctx key (to_uint32 (int_arg text)) h.storage), set_ok new_result)

  unfoldable pub persist : Command p
  persist args h = arg args 1 λ key. on_context h.context λ ctx.
      let (s, removed) = p.persist ctx key h.storage in
      returns (store h s, respond (format_bool removed))

  unfoldable pub llen : Command p
  llen args h = arg args 1 λ key.
      on_context h.context λ ctx.
        let (s, n) = p.llen ctx key h.storage in returns (store h s, respond (format_int64 n))

  unfoldable pub lindex : Command p
  lindex args h = arg args 1 λ key. arg args 2 λ text. on_context h.context λ ctx.
      let (s, found) = p.lindex ctx key (int_arg text) h.storage in
      returns (store h s, respond_or same_bytes found)

  abbrev lset_result : Option Error → Result
  lset_result none = respond ok_bytes
  lset_result (some e) = fail e

  unfoldable pub lset : Command p
  lset args h = arg args 1 λ key. arg args 2 λ text. arg args 3 λ value. on_context h.context λ ctx.
      let (s, e) = p.lset ctx key (int_arg text) value h.storage in
      returns (store h s, lset_result e)

  -- A push that answers 0 looks whether a value is there that is no list.
  abbrev is_value : Reply Bytes → Bool
  is_value (ok bytes) = ltb 0 (length bytes)
  is_value (err e) = false

  unfoldable pub pushed : Context → Bytes → Handler p → p.State × ℕ → Outcome (Handler p × Result)
  pushed ctx key h (s, n) =
      let (s', found) = p.get ctx key s in
      if n == 0
      then returns
          (store h s', if is_value found then fail wrong_type else respond (format_int64 n))
      else returns (store h s, respond (format_int64 n))

  unfoldable pub lpush : Command p
  unfolding pushed
  lpush args h = arg args 1 λ key.
      args_from args 2
        λ values. on_context h.context λ ctx. pushed ctx key h (p.lpush ctx key values h.storage)

  unfoldable pub rpush : Command p
  unfolding pushed
  rpush args h = arg args 1 λ key.
      args_from args 2
        λ values. on_context h.context λ ctx. pushed ctx key h (p.rpush ctx key values h.storage)

  unfoldable pub lpop : Command p
  lpop args h = arg args 1 λ key. on_context h.context λ ctx.
      let (s, found) = p.lpop ctx key h.storage in returns (store h s, respond_or same_bytes found)

  unfoldable pub rpop : Command p
  rpop args h = arg args 1 λ key. on_context h.context λ ctx.
      let (s, found) = p.rpop ctx key h.storage in returns (store h s, respond_or same_bytes found)

  unfoldable pub lrange : Command p
  lrange args h = arg args 1 λ key. arg args 2 λ start. arg args 3 λ stop.
      on_context h.context λ ctx.
        let (s, found) = p.lrange ctx key (int_arg start) (int_arg stop) h.storage in
        returns (store h s, respond_or format_array found)

  unfoldable pub flushall : Command p
  flushall args h =
      on_context h.context
        λ ctx. let (s, e) = p.flush_all ctx h.storage in returns (store h s, lset_result e)

  unfoldable pub sadd : Command p
  sadd args h = arg args 1 λ key. args_from args 2 λ members. on_context h.context λ ctx.
      let (s, n) = p.sadd ctx key members h.storage in returns (store h s, respond (format_int64 n))

  unfoldable pub srem : Command p
  srem args h = arg args 1 λ key. args_from args 2 λ members. on_context h.context λ ctx.
      let (s, n) = p.srem ctx key members h.storage in returns (store h s, respond (format_int64 n))

  unfoldable pub smembers : Command p
  smembers args h = arg args 1 λ key. on_context h.context λ ctx.
      let (s, found) = p.smembers ctx key h.storage in
      returns (store h s, respond_or format_array found)

  unfoldable pub sismember : Command p
  sismember args h = arg args 1 λ key. arg args 2 λ m. on_context h.context λ ctx.
      let (s, there) = p.sismember ctx key m h.storage in
      returns (store h s, respond (format_bool there))

  unfoldable pub zadd : Command p
  zadd args h = arg args 1 λ key. arg args 2 λ text. arg args 3 λ m.
      on_float (rt.parse_float text) (returns (h, fail invalid_float)) λ score.
        on_context h.context λ ctx.
          let (s, n) = p.zadd ctx key score m h.storage in
          returns (store h s, respond (format_int64 n))

  unfoldable pub zrange : Command p
  zrange args h = arg args 1 λ key. arg args 2 λ start. arg args 3 λ stop.
      on_parsed (parse_int64 start) (returns (h, fail invalid_integer)) λ low.
        on_parsed (parse_int64 stop) (returns (h, fail invalid_integer)) λ high.
          on_context h.context λ ctx.
            let (s, found) = p.zrange ctx key low high h.storage in
            returns (store h s, respond_or format_array found)

  unfoldable pub zcount : Command p
  zcount args h = arg args 1 λ key. arg args 2 λ min. arg args 3 λ max.
      on_float (rt.parse_float min) (returns (h, fail invalid_float)) λ low.
        on_float (rt.parse_float max) (returns (h, fail invalid_float)) λ high.
          on_context h.context λ ctx.
            let (s, n) = p.zcount ctx key low high h.storage in
            returns (store h s, respond (format_int64 n))

  unfoldable pub incr : Command p
  incr args h = arg args 1 λ key.
      on_context h.context λ ctx.
        let (s, n) = p.incr ctx key h.storage in returns (store h s, respond_or format_int64 n)

  unfoldable pub decr : Command p
  decr args h = arg args 1 λ key.
      on_context h.context λ ctx.
        let (s, n) = p.decr ctx key h.storage in returns (store h s, respond_or format_int64 n)

  unfoldable pub process_integer_modification :
      (Context → Bytes → ℕ → p.State → p.State × Reply ℕ) → Command p
  process_integer_modification storage_method args h = arg args 1 λ key. arg args 2 λ text.
      on_parsed (parse_int64 text) (returns (h, fail invalid_integer)) λ value.
        on_context h.context λ ctx.
          let (s, n) = storage_method ctx key value h.storage in
          returns (store h s, respond_or format_int64 n)

  unfoldable pub incrby : Command p
  unfolding process_integer_modification
  incrby = process_integer_modification p.incr_by

  unfoldable pub decrby : Command p
  unfolding process_integer_modification
  decrby = process_integer_modification p.decr_by

  unfoldable pub append : Command p
  append args h = arg args 1 λ key. arg args 2 λ value. on_context h.context λ ctx.
      let (s, n) = p.append ctx key value h.storage in returns (store h s, respond (format_int64 n))

  unfoldable pub ping : Command p
  ping args h =
      if ltb 1 (length args)
      then arg args 1 (λ text. returns (h, respond text))
      else returns (h, respond pong)
