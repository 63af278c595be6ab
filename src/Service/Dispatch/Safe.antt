-- ===== src/Service/Dispatch/Safe.antt =====
-- Each command, with as many arguments as its validation asks for.
use keyp.Base.{
  ◌==◌, ◌≡◌, ◌≤◌, refl, arith, false, Option, none, some, length, ltb, leb, Bool-cases, inl, inr,
  ltb→lt, le→ltb_false, leb→le,
}
use keyp.Decimal.{parse_int64}
use keyp.Bytes.{Bytes}
use keyp.Storage.{is_empty}
use keyp.Domain.{Context, Error}
use keyp.Service.{Args, Persister, Runtime, Handler, returns}
use keyp.Service.Commands as Cmd
use keyp.Service.Dispatch.Safety.{
  IsLive, IsSound, returned, IsSafe, arg-IsSound, args_from-IsSound, on_context-IsSound,
}
use keyp.Service.Dispatch.Safety.{if-IsSound, on_parsed-IsSound, on_float-IsSound, kept, unchanged}

module _ (rt : Runtime) (p : Persister) (Excuse : Type 0) where
  pub get-IsSafe : IsSafe {p = p} Excuse 2 (Cmd.get rt p)
  unfolding Cmd.get
  get-IsSafe args h live n =
      arg-IsSound args 1 (omega arith) λ key. on_context-IsSound h.context live λ ctx. kept live

  pub del-IsSafe : IsSafe {p = p} Excuse 2 (Cmd.del rt p)
  unfolding Cmd.del
  del-IsSafe args h live n =
      let enough : ltb (length args) 2 ≡ false = le→ltb_false (length args) 2 n in
      rw enough (
        args_from-IsSound args 1 (omega arith)
          λ keys. on_context-IsSound h.context live λ ctx. kept live)

  pub expire-IsSafe : IsSafe {p = p} Excuse 3 (Cmd.expire rt p)
  unfolding Cmd.expire
  expire-IsSafe args h live n = arg-IsSound args 1 (omega arith) λ key.
      arg-IsSound args 2 (omega arith) λ text. on_context-IsSound h.context live λ ctx. kept live

  pub persist-IsSafe : IsSafe {p = p} Excuse 2 (Cmd.persist rt p)
  unfolding Cmd.persist
  persist-IsSafe args h live n =
      arg-IsSound args 1 (omega arith) λ key. on_context-IsSound h.context live λ ctx. kept live

  pub exists-IsSafe : IsSafe {p = p} Excuse 2 (Cmd.exists rt p)
  unfolding Cmd.exists
  exists-IsSafe args h live n = args_from-IsSound args 1 (omega arith) λ keys.
      if-IsSound (is_empty keys) (unchanged live)
        (on_context-IsSound h.context live λ ctx. kept live)

  pub ttl-IsSafe : IsSafe {p = p} Excuse 2 (Cmd.ttl rt p)
  unfolding Cmd.ttl
  ttl-IsSafe args h live n = arg-IsSound args 1 (omega arith) λ key.
      on_context-IsSound h.context live
        λ ctx. if-IsSound ((p.ttl ctx key h.storage).1 == 0) (kept live) (kept live)

  pub llen-IsSafe : IsSafe {p = p} Excuse 2 (Cmd.llen rt p)
  unfolding Cmd.llen
  llen-IsSafe args h live n =
      arg-IsSound args 1 (omega arith) λ key. on_context-IsSound h.context live λ ctx. kept live

  pub lindex-IsSafe : IsSafe {p = p} Excuse 3 (Cmd.lindex rt p)
  unfolding Cmd.lindex
  lindex-IsSafe args h live n = arg-IsSound args 1 (omega arith) λ key.
      arg-IsSound args 2 (omega arith) λ text. on_context-IsSound h.context live λ ctx. kept live

  pub lset-IsSafe : IsSafe {p = p} Excuse 4 (Cmd.lset rt p)
  unfolding Cmd.lset
  lset-IsSafe args h live n = arg-IsSound args 1 (omega arith) λ key.
      arg-IsSound args 2 (omega arith) λ text.
        arg-IsSound args 3 (omega arith) λ value. on_context-IsSound h.context live λ ctx. kept live

  pub lpush-IsSafe : IsSafe {p = p} Excuse 3 (Cmd.lpush rt p)
  unfolding Cmd.lpush Cmd.pushed
  lpush-IsSafe args h live n = arg-IsSound args 1 (omega arith) λ key.
      args_from-IsSound args 2 (omega arith) λ values.
        on_context-IsSound h.context live
          λ ctx. if-IsSound ((p.lpush ctx key values h.storage).1 == 0) (kept live) (kept live)

  pub rpush-IsSafe : IsSafe {p = p} Excuse 3 (Cmd.rpush rt p)
  unfolding Cmd.rpush Cmd.pushed
  rpush-IsSafe args h live n = arg-IsSound args 1 (omega arith) λ key.
      args_from-IsSound args 2 (omega arith) λ values.
        on_context-IsSound h.context live
          λ ctx. if-IsSound ((p.rpush ctx key values h.storage).1 == 0) (kept live) (kept live)

  pub lpop-IsSafe : IsSafe {p = p} Excuse 2 (Cmd.lpop rt p)
  unfolding Cmd.lpop
  lpop-IsSafe args h live n =
      arg-IsSound args 1 (omega arith) λ key. on_context-IsSound h.context live λ ctx. kept live

  pub rpop-IsSafe : IsSafe {p = p} Excuse 2 (Cmd.rpop rt p)
  unfolding Cmd.rpop
  rpop-IsSafe args h live n =
      arg-IsSound args 1 (omega arith) λ key. on_context-IsSound h.context live λ ctx. kept live

  pub lrange-IsSafe : IsSafe {p = p} Excuse 4 (Cmd.lrange rt p)
  unfolding Cmd.lrange
  lrange-IsSafe args h live n = arg-IsSound args 1 (omega arith) λ key.
      arg-IsSound args 2 (omega arith) λ start.
        arg-IsSound args 3 (omega arith) λ stop. on_context-IsSound h.context live λ ctx. kept live

  pub flushall-IsSafe : IsSafe {p = p} Excuse 1 (Cmd.flushall rt p)
  unfolding Cmd.flushall
  flushall-IsSafe args h live n = on_context-IsSound h.context live λ ctx. kept live

  pub sadd-IsSafe : IsSafe {p = p} Excuse 3 (Cmd.sadd rt p)
  unfolding Cmd.sadd
  sadd-IsSafe args h live n = arg-IsSound args 1 (omega arith) λ key.
      args_from-IsSound args 2 (omega arith)
        λ members. on_context-IsSound h.context live λ ctx. kept live

  pub srem-IsSafe : IsSafe {p = p} Excuse 3 (Cmd.srem rt p)
  unfolding Cmd.srem
  srem-IsSafe args h live n = arg-IsSound args 1 (omega arith) λ key.
      args_from-IsSound args 2 (omega arith)
        λ members. on_context-IsSound h.context live λ ctx. kept live

  pub smembers-IsSafe : IsSafe {p = p} Excuse 2 (Cmd.smembers rt p)
  unfolding Cmd.smembers
  smembers-IsSafe args h live n =
      arg-IsSound args 1 (omega arith) λ key. on_context-IsSound h.context live λ ctx. kept live

  pub sismember-IsSafe : IsSafe {p = p} Excuse 3 (Cmd.sismember rt p)
  unfolding Cmd.sismember
  sismember-IsSafe args h live n = arg-IsSound args 1 (omega arith) λ key.
      arg-IsSound args 2 (omega arith) λ m. on_context-IsSound h.context live λ ctx. kept live

  pub zadd-IsSafe : IsSafe {p = p} Excuse 4 (Cmd.zadd rt p)
  unfolding Cmd.zadd
  zadd-IsSafe args h live n = arg-IsSound args 1 (omega arith) λ key.
      arg-IsSound args 2 (omega arith) λ text. arg-IsSound args 3 (omega arith) λ m.
        on_float-IsSound (rt.parse_float text) (unchanged live)
          λ n. on_context-IsSound h.context live λ ctx. kept live

  pub zrange-IsSafe : IsSafe {p = p} Excuse 4 (Cmd.zrange rt p)
  unfolding Cmd.zrange
  zrange-IsSafe args h live n = arg-IsSound args 1 (omega arith) λ key.
      arg-IsSound args 2 (omega arith) λ start. arg-IsSound args 3 (omega arith) λ stop.
        on_parsed-IsSound (parse_int64 start) (unchanged live) λ n.
          on_parsed-IsSound (parse_int64 stop) (unchanged live)
            λ n. on_context-IsSound h.context live λ ctx. kept live

  pub zcount-IsSafe : IsSafe {p = p} Excuse 4 (Cmd.zcount rt p)
  unfolding Cmd.zcount
  zcount-IsSafe args h live n = arg-IsSound args 1 (omega arith) λ key.
      arg-IsSound args 2 (omega arith) λ low. arg-IsSound args 3 (omega arith) λ high.
        on_float-IsSound (rt.parse_float low) (unchanged live) λ n.
          on_float-IsSound (rt.parse_float high) (unchanged live)
            λ n. on_context-IsSound h.context live λ ctx. kept live

  pub incr-IsSafe : IsSafe {p = p} Excuse 2 (Cmd.incr rt p)
  unfolding Cmd.incr
  incr-IsSafe args h live n =
      arg-IsSound args 1 (omega arith) λ key. on_context-IsSound h.context live λ ctx. kept live

  pub decr-IsSafe : IsSafe {p = p} Excuse 2 (Cmd.decr rt p)
  unfolding Cmd.decr
  decr-IsSafe args h live n =
      arg-IsSound args 1 (omega arith) λ key. on_context-IsSound h.context live λ ctx. kept live

  pub incrby-IsSafe : IsSafe {p = p} Excuse 3 (Cmd.incrby rt p)
  unfolding Cmd.incrby Cmd.process_integer_modification
  incrby-IsSafe args h live n = arg-IsSound args 1 (omega arith) λ key.
      arg-IsSound args 2 (omega arith) λ text.
        on_parsed-IsSound (parse_int64 text) (unchanged live)
          λ n. on_context-IsSound h.context live λ ctx. kept live

  pub decrby-IsSafe : IsSafe {p = p} Excuse 3 (Cmd.decrby rt p)
  unfolding Cmd.decrby Cmd.process_integer_modification
  decrby-IsSafe args h live n = arg-IsSound args 1 (omega arith) λ key.
      arg-IsSound args 2 (omega arith) λ text.
        on_parsed-IsSound (parse_int64 text) (unchanged live)
          λ n. on_context-IsSound h.context live λ ctx. kept live

  pub append-IsSafe : IsSafe {p = p} Excuse 3 (Cmd.append rt p)
  unfolding Cmd.append
  append-IsSafe args h live n = arg-IsSound args 1 (omega arith) λ key.
      arg-IsSound args 2 (omega arith) λ value. on_context-IsSound h.context live λ ctx. kept live

  pub sel-IsSafe : IsSafe {p = p} Excuse 2 (Cmd.sel rt p)
  unfolding Cmd.sel
  sel-IsSafe args h live n = arg-IsSound args 1 (omega arith) λ text.
      on_context-IsSound h.context live
        λ ctx. returned (record { same_queue = refl; same_mode = refl; live = (_, refl) })

  set_done-IsSound :
      {h : Handler p} (s : p.State) (o : Option p.State)
      → IsLive h
      → IsSound Excuse h (returns (Cmd.set_done rt p h s o))
  set_done-IsSound s none live = kept live
  set_done-IsSound s (some s') live = kept live

  set_stored-IsSound :
      (args : Args) (ctx : Context) (key : Bytes) (h : Handler p) (s : p.State) (e : Option Error)
      → IsLive h
      → IsSound Excuse h (Cmd.set_stored rt p args ctx key h s e)
  set_stored-IsSound args ctx key h s (some e) live = kept live
  set_stored-IsSound args ctx key h s none live = elim (Bool-cases (leb 5 (length args))) [
    | inl enough ↦
        let many : 5 ≤ length args = leb→le 5 (length args) enough in
        rw enough (
          arg-IsSound args 3 (omega arith)
            λ option. arg-IsSound args 4 (omega arith) λ text. set_done-IsSound s _ live)
    | inr few ↦ rw few (kept live)
  ]

  pub set-IsSafe : IsSafe {p = p} Excuse 3 (Cmd.set rt p)
  unfolding Cmd.set
  set-IsSafe args h live n = arg-IsSound args 1 (omega arith) λ key.
      arg-IsSound args 2 (omega arith)
        λ value. on_context-IsSound h.context live λ ctx. set_stored-IsSound args ctx key h _ _ live

  pub ping-IsSafe : IsSafe {p = p} Excuse 1 (Cmd.ping rt p)
  unfolding Cmd.ping
  ping-IsSafe args h live n = elim (Bool-cases (ltb 1 (length args))) [
    | inl two ↦ rw two (arg-IsSound args 1 (ltb→lt 1 (length args) two) λ text. unchanged live)
    | inr one ↦ rw one (unchanged live)
  ]
