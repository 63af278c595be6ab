-- ===== src/Service/Dispatch.antt =====
-- handler.go, apply.go, exec.go and do.go: the tables of commands and the state machine of MULTI,
-- EXEC and DISCARD. DO calls commands that may be DO again, so it runs on fuel.
pub mod Safety
pub mod Safe
pub mod Tables
pub mod Queue
pub mod Serves
pub mod Transaction
pub mod Replies
pub mod Modal
pub mod Direct
use keyp.Base.{
  ℕ, zero, suc, Bool, true, false, Option, none, some, List, [], ◌∷◌, ◌++◌, if◌then◌else◌, length,
  drop, ltb,
}
use keyp.Bytes.{Bytes, codes, bytes_eq}
use keyp.Int64.{ℤ, pos, negsuc}
use keyp.Dict.{Dict, lookup, string_eq}
use keyp.Domain.{Error, Context, Result, new_result, set_empty, empty, ok_bytes, queued}
use keyp.Service.{Args, Persister, Runtime, Handler, Outcome, returns, panics, unfinished, Command}
use keyp.Service.{
  Validation, is_valid, normalize_command_name, unknown_command_error, arg, args_from,
}
use keyp.Service.Commands.{respond, fail}
use keyp.Service.Commands as Cmd

unfoldable pub validations : Dict Bytes Validation
validations =
    (codes "DEL", record { min_args = 2; max_args = negsuc 0 })
    ∷ (codes "GET", record { min_args = 2; max_args = pos 2 })
    ∷ (codes "SET", record { min_args = 3; max_args = pos 5 })
    ∷ (codes "SEL", record { min_args = 2; max_args = pos 2 })
    ∷ (codes "DO", record { min_args = 2; max_args = negsuc 0 })
    ∷ (codes "TTL", record { min_args = 2; max_args = pos 2 })
    ∷ (codes "EXPIRE", record { min_args = 3; max_args = pos 3 })
    ∷ (codes "PERSIST", record { min_args = 2; max_args = pos 2 })
    ∷ (codes "EXISTS", record { min_args = 2; max_args = pos 0 })
    ∷ (codes "LLEN", record { min_args = 2; max_args = pos 2 })
    ∷ (codes "LINDEX", record { min_args = 3; max_args = pos 3 })
    ∷ (codes "LSET", record { min_args = 4; max_args = pos 4 })
    ∷ (codes "LPUSH", record { min_args = 3; max_args = negsuc 0 })
    ∷ (codes "RPUSH", record { min_args = 3; max_args = negsuc 0 })
    ∷ (codes "LPOP", record { min_args = 2; max_args = pos 2 })
    ∷ (codes "RPOP", record { min_args = 2; max_args = pos 2 })
    ∷ (codes "LRANGE", record { min_args = 4; max_args = pos 4 })
    ∷ (codes "FLUSHALL", record { min_args = 1; max_args = pos 1 })
    ∷ (codes "SADD", record { min_args = 3; max_args = negsuc 0 })
    ∷ (codes "SREM", record { min_args = 3; max_args = negsuc 0 })
    ∷ (codes "SMEMBERS", record { min_args = 2; max_args = pos 2 })
    ∷ (codes "SISMEMBER", record { min_args = 3; max_args = pos 3 })
    ∷ (codes "ZADD", record { min_args = 4; max_args = pos 4 })
    ∷ (codes "ZRANGE", record { min_args = 4; max_args = pos 4 })
    ∷ (codes "ZCOUNT", record { min_args = 4; max_args = pos 4 })
    ∷ (codes "INCR", record { min_args = 2; max_args = pos 2 })
    ∷ (codes "INCRBY", record { min_args = 3; max_args = pos 3 })
    ∷ (codes "DECR", record { min_args = 2; max_args = pos 2 })
    ∷ (codes "DECRBY", record { min_args = 3; max_args = pos 3 })
    ∷ (codes "APPEND", record { min_args = 3; max_args = pos 3 })
    ∷ (codes "PING", record { min_args = 1; max_args = pos 2 })
    ∷ (codes "DELETE", record { min_args = 2; max_args = negsuc 0 })
    ∷ []

module _ (rt : Runtime) (p : Persister) where
  -- `handler.commands`, by the function that stands for `handler.do`.
  unfoldable pub commands : Command p → Dict Bytes (Command p)
  commands do_command =
      (codes "DEL", Cmd.del rt p)
      ∷ (codes "GET", Cmd.get rt p)
      ∷ (codes "SET", Cmd.set rt p)
      ∷ (codes "SEL", Cmd.sel rt p)
      ∷ (codes "DO", do_command)
      ∷ (codes "TTL", Cmd.ttl rt p)
      ∷ (codes "EXPIRE", Cmd.expire rt p)
      ∷ (codes "PERSIST", Cmd.persist rt p)
      ∷ (codes "EXISTS", Cmd.exists rt p)
      ∷ (codes "LLEN", Cmd.llen rt p)
      ∷ (codes "LINDEX", Cmd.lindex rt p)
      ∷ (codes "LSET", Cmd.lset rt p)
      ∷ (codes "LPUSH", Cmd.lpush rt p)
      ∷ (codes "RPUSH", Cmd.rpush rt p)
      ∷ (codes "LPOP", Cmd.lpop rt p)
      ∷ (codes "RPOP", Cmd.rpop rt p)
      ∷ (codes "LRANGE", Cmd.lrange rt p)
      ∷ (codes "FLUSHALL", Cmd.flushall rt p)
      ∷ (codes "SADD", Cmd.sadd rt p)
      ∷ (codes "SREM", Cmd.srem rt p)
      ∷ (codes "SMEMBERS", Cmd.smembers rt p)
      ∷ (codes "SISMEMBER", Cmd.sismember rt p)
      ∷ (codes "ZADD", Cmd.zadd rt p)
      ∷ (codes "ZRANGE", Cmd.zrange rt p)
      ∷ (codes "ZCOUNT", Cmd.zcount rt p)
      ∷ (codes "INCR", Cmd.incr rt p)
      ∷ (codes "INCRBY", Cmd.incrby rt p)
      ∷ (codes "DECR", Cmd.decr rt p)
      ∷ (codes "DECRBY", Cmd.decrby rt p)
      ∷ (codes "APPEND", Cmd.append rt p)
      ∷ (codes "PING", Cmd.ping rt p)
      ∷ (codes "DELETE", Cmd.del rt p)
      ∷ []

  -- The call of what a table holds for a name, if anything.
  abbrev pub call : Option (Command p) → Error → Command p
  call none e args h = returns (h, fail e)
  call (some command) e args h = command args h

  -- `do`, by the table in which it looks the command up.
  unfoldable pub do_in : Dict Bytes (Command p) → Command p
  do_in table args h =
      if ltb (length args) 2
      then returns (h, set_empty new_result)
      else arg args 0 λ text. args_from args 1 λ rest.
        let name = normalize_command_name rt text in
        call (lookup name table) (unknown_command_error name) (name ∷ rest) h

  unfoldable pub do_command : ℕ → Command p
  unfolding do_in
  do_command zero args h = unfinished
  do_command (suc fuel) args h = do_in (commands (do_command fuel)) args h

  -- The results so far, and the outcome of one more command.
  abbrev pub and_then {ℓ κ} : {A : Type ℓ} {B : Type κ} → Outcome A → (A → Outcome B) → Outcome B
  and_then (returns a) k = k a
  and_then panics k = panics
  and_then unfinished k = unfinished

  -- `for _, args := range handler.multArgs`
  unfoldable pub exec_loop :
      ℕ → List Args → List Result → Handler p → Outcome (Handler p × List Result)
  exec_loop fuel [] results h = returns (h, results)
  exec_loop fuel (args ∷ rest) results h =
      and_then (do_command fuel args h)
        λ (h', result). exec_loop fuel rest (results ++ (result ∷ [])) h'

  unfoldable pub exec : ℕ → Handler p → Outcome (Handler p × List Result)
  unfolding exec_loop
  exec fuel h = if h.mult_enabled then exec_loop fuel h.mult_args [] h else returns (h, [])

  abbrev pub one_result : Handler p × Result → Outcome (Handler p × List Result)
  one_result (h, result) = returns (h, result ∷ [])

  abbrev pub answered : Handler p → Result → Outcome (Handler p × List Result)
  answered h result = returns (h, result ∷ [])

  -- The call of a missing function panics.
  abbrev pub run_command : Option (Command p) → Command p
  run_command none args h = panics
  run_command (some command) args h = command args h

  -- The end of `Apply`: a valid command is queued or run.
  unfoldable pub accept : ℕ → Bytes → Args → Handler p → Outcome (Handler p × List Result)
  accept fuel name args h =
      if h.mult_enabled
      then answered (record h { mult_args = h.mult_args ++ (args ∷ []) }) (respond queued)
      else and_then (run_command (lookup name (commands (do_command fuel))) args h) one_result

  abbrev on_valid :
      Option Error
      → (Error → Outcome (Handler p × List Result))
      → Outcome (Handler p × List Result)
      → Outcome (Handler p × List Result)
  on_valid none bad good = good
  on_valid (some e) bad good = bad e

  abbrev on_validation :
      Option Validation
      → Outcome (Handler p × List Result)
      → (Validation → Outcome (Handler p × List Result))
      → Outcome (Handler p × List Result)
  on_validation none bad k = bad
  on_validation (some v) bad k = k v

  -- `Apply` after the three commands of the queue.
  unfoldable pub apply_named : ℕ → Bytes → Args → Handler p → Outcome (Handler p × List Result)
  unfolding accept
  apply_named fuel name args h =
      on_validation (lookup name validations) (answered h (fail (unknown_command_error name))) λ v.
        on_valid (is_valid v name (length args)) (λ e. answered h (fail e))
          (accept fuel name args h)

  -- `Apply` does not look at its own context.
  unfoldable pub apply : ℕ → Context → Args → Handler p → Outcome (Handler p × List Result)
  unfolding apply_named exec
  apply fuel ctx [] h = answered h (fail empty)
  apply fuel ctx (text ∷ rest) h =
      let name = normalize_command_name rt text in
      if bytes_eq name (codes "MULTI")
      then answered (record h { mult_enabled = true }) (respond ok_bytes)
      else if bytes_eq name (codes "DISCARD")
      then answered (record h { mult_enabled = false; mult_args = [] }) (respond ok_bytes)
      else if bytes_eq name (codes "EXEC")
      then exec fuel h
      else apply_named fuel name (text ∷ rest) h
