-- ===== src/Service/Dispatch/Modal/Commands.antt =====
-- Each command of internal/service, but DO, does not look at its name, nor at the queue and the mode.
use keyp.Base.{Bool, Option, none, some, List, ◌∷◌}
use keyp.Base.{length, get_elem?, leb, ltb, ◌==◌}
use keyp.Bytes.{Bytes}
use keyp.Decimal.{parse_int64}
use keyp.Domain.{Context, Error}
use keyp.Storage.{is_empty}
use keyp.Service.{Args, Persister, Runtime, Handler, returns}
use keyp.Service.{slice_from}
use keyp.Service.Commands.{on_parsed, on_float}
use keyp.Service.Commands as Cmd
use keyp.Service.Dispatch.Modal.{
  InMode, IsModal, with_mode, alike, on_arg-InMode, on_slice-InMode, on_context-InMode, if-InMode,
  on_parsed-InMode, on_float-InMode,
}

module _ (rt : Runtime) (p : Persister) where
  pub del-IsModal : IsModal {p = p} (Cmd.del rt p)
  unfolding Cmd.del
  del-IsModal queue mode x y rest h =
      if-InMode (ltb (length (x ∷ rest)) 2) alike
        (on_slice-InMode (slice_from (x ∷ rest) 1) λ keys. on_context-InMode h.context λ ctx. alike)

  pub get-IsModal : IsModal {p = p} (Cmd.get rt p)
  unfolding Cmd.get
  get-IsModal queue mode x y rest h =
      on_arg-InMode (get_elem? rest 0) λ key. on_context-InMode h.context λ ctx. alike

  pub sel-IsModal : IsModal {p = p} (Cmd.sel rt p)
  unfolding Cmd.sel
  sel-IsModal queue mode x y rest h =
      on_arg-InMode (get_elem? rest 0) λ text. on_context-InMode h.context λ ctx. alike

  pub ttl-IsModal : IsModal {p = p} (Cmd.ttl rt p)
  unfolding Cmd.ttl
  ttl-IsModal queue mode x y rest h = on_arg-InMode (get_elem? rest 0) λ key.
      on_context-InMode h.context λ ctx. if-InMode ((p.ttl ctx key h.storage).1 == 0) alike alike

  pub expire-IsModal : IsModal {p = p} (Cmd.expire rt p)
  unfolding Cmd.expire
  expire-IsModal queue mode x y rest h =
      on_arg-InMode (get_elem? rest 0)
        λ key. on_arg-InMode (get_elem? rest 1) λ text. on_context-InMode h.context λ ctx. alike

  pub persist-IsModal : IsModal {p = p} (Cmd.persist rt p)
  unfolding Cmd.persist
  persist-IsModal queue mode x y rest h =
      on_arg-InMode (get_elem? rest 0) λ key. on_context-InMode h.context λ ctx. alike

  pub exists-IsModal : IsModal {p = p} (Cmd.exists rt p)
  unfolding Cmd.exists
  exists-IsModal queue mode x y rest h =
      on_slice-InMode (slice_from (x ∷ rest) 1)
        λ keys. if-InMode (is_empty keys) alike (on_context-InMode h.context λ ctx. alike)

  pub llen-IsModal : IsModal {p = p} (Cmd.llen rt p)
  unfolding Cmd.llen
  llen-IsModal queue mode x y rest h =
      on_arg-InMode (get_elem? rest 0) λ key. on_context-InMode h.context λ ctx. alike

  pub lindex-IsModal : IsModal {p = p} (Cmd.lindex rt p)
  unfolding Cmd.lindex
  lindex-IsModal queue mode x y rest h =
      on_arg-InMode (get_elem? rest 0)
        λ key. on_arg-InMode (get_elem? rest 1) λ text. on_context-InMode h.context λ ctx. alike

  pub lset-IsModal : IsModal {p = p} (Cmd.lset rt p)
  unfolding Cmd.lset
  lset-IsModal queue mode x y rest h = on_arg-InMode (get_elem? rest 0) λ key.
      on_arg-InMode (get_elem? rest 1)
        λ text. on_arg-InMode (get_elem? rest 2) λ value. on_context-InMode h.context λ ctx. alike

  pub lpush-IsModal : IsModal {p = p} (Cmd.lpush rt p)
  unfolding Cmd.lpush Cmd.pushed
  lpush-IsModal queue mode x y rest h = on_arg-InMode (get_elem? rest 0) λ key.
      on_slice-InMode (slice_from (x ∷ rest) 2) λ values.
        on_context-InMode h.context
          λ ctx. if-InMode ((p.lpush ctx key values h.storage).1 == 0) alike alike

  pub rpush-IsModal : IsModal {p = p} (Cmd.rpush rt p)
  unfolding Cmd.rpush Cmd.pushed
  rpush-IsModal queue mode x y rest h = on_arg-InMode (get_elem? rest 0) λ key.
      on_slice-InMode (slice_from (x ∷ rest) 2) λ values.
        on_context-InMode h.context
          λ ctx. if-InMode ((p.rpush ctx key values h.storage).1 == 0) alike alike

  pub lpop-IsModal : IsModal {p = p} (Cmd.lpop rt p)
  unfolding Cmd.lpop
  lpop-IsModal queue mode x y rest h =
      on_arg-InMode (get_elem? rest 0) λ key. on_context-InMode h.context λ ctx. alike

  pub rpop-IsModal : IsModal {p = p} (Cmd.rpop rt p)
  unfolding Cmd.rpop
  rpop-IsModal queue mode x y rest h =
      on_arg-InMode (get_elem? rest 0) λ key. on_context-InMode h.context λ ctx. alike

  pub lrange-IsModal : IsModal {p = p} (Cmd.lrange rt p)
  unfolding Cmd.lrange
  lrange-IsModal queue mode x y rest h = on_arg-InMode (get_elem? rest 0) λ key.
      on_arg-InMode (get_elem? rest 1)
        λ start. on_arg-InMode (get_elem? rest 2) λ stop. on_context-InMode h.context λ ctx. alike

  pub flushall-IsModal : IsModal {p = p} (Cmd.flushall rt p)
  unfolding Cmd.flushall
  flushall-IsModal queue mode x y rest h = on_context-InMode h.context λ ctx. alike

  pub sadd-IsModal : IsModal {p = p} (Cmd.sadd rt p)
  unfolding Cmd.sadd
  sadd-IsModal queue mode x y rest h = on_arg-InMode (get_elem? rest 0) λ key.
      on_slice-InMode (slice_from (x ∷ rest) 2) λ members. on_context-InMode h.context λ ctx. alike

  pub srem-IsModal : IsModal {p = p} (Cmd.srem rt p)
  unfolding Cmd.srem
  srem-IsModal queue mode x y rest h = on_arg-InMode (get_elem? rest 0) λ key.
      on_slice-InMode (slice_from (x ∷ rest) 2) λ members. on_context-InMode h.context λ ctx. alike

  pub smembers-IsModal : IsModal {p = p} (Cmd.smembers rt p)
  unfolding Cmd.smembers
  smembers-IsModal queue mode x y rest h =
      on_arg-InMode (get_elem? rest 0) λ key. on_context-InMode h.context λ ctx. alike

  pub sismember-IsModal : IsModal {p = p} (Cmd.sismember rt p)
  unfolding Cmd.sismember
  sismember-IsModal queue mode x y rest h =
      on_arg-InMode (get_elem? rest 0)
        λ key. on_arg-InMode (get_elem? rest 1) λ m. on_context-InMode h.context λ ctx. alike

  pub zadd-IsModal : IsModal {p = p} (Cmd.zadd rt p)
  unfolding Cmd.zadd
  zadd-IsModal queue mode x y rest h = on_arg-InMode (get_elem? rest 0) λ key.
      on_arg-InMode (get_elem? rest 1) λ text. on_arg-InMode (get_elem? rest 2) λ m.
        on_float-InMode (rt.parse_float text) alike
          λ score. on_context-InMode h.context λ ctx. alike

  pub zrange-IsModal : IsModal {p = p} (Cmd.zrange rt p)
  unfolding Cmd.zrange
  zrange-IsModal queue mode x y rest h = on_arg-InMode (get_elem? rest 0) λ key.
      on_arg-InMode (get_elem? rest 1) λ start. on_arg-InMode (get_elem? rest 2) λ stop.
        on_parsed-InMode (parse_int64 start) alike λ low.
          on_parsed-InMode (parse_int64 stop) alike λ high. on_context-InMode h.context λ ctx. alike

  pub zcount-IsModal : IsModal {p = p} (Cmd.zcount rt p)
  unfolding Cmd.zcount
  zcount-IsModal queue mode x y rest h = on_arg-InMode (get_elem? rest 0) λ key.
      on_arg-InMode (get_elem? rest 1) λ min. on_arg-InMode (get_elem? rest 2) λ max.
        on_float-InMode (rt.parse_float min) alike λ low.
          on_float-InMode (rt.parse_float max) alike
            λ high. on_context-InMode h.context λ ctx. alike

  pub incr-IsModal : IsModal {p = p} (Cmd.incr rt p)
  unfolding Cmd.incr
  incr-IsModal queue mode x y rest h =
      on_arg-InMode (get_elem? rest 0) λ key. on_context-InMode h.context λ ctx. alike

  pub incrby-IsModal : IsModal {p = p} (Cmd.incrby rt p)
  unfolding Cmd.incrby Cmd.process_integer_modification
  incrby-IsModal queue mode x y rest h = on_arg-InMode (get_elem? rest 0) λ key.
      on_arg-InMode (get_elem? rest 1) λ text.
        on_parsed-InMode (parse_int64 text) alike λ n. on_context-InMode h.context λ ctx. alike

  pub decr-IsModal : IsModal {p = p} (Cmd.decr rt p)
  unfolding Cmd.decr
  decr-IsModal queue mode x y rest h =
      on_arg-InMode (get_elem? rest 0) λ key. on_context-InMode h.context λ ctx. alike

  pub decrby-IsModal : IsModal {p = p} (Cmd.decrby rt p)
  unfolding Cmd.decrby Cmd.process_integer_modification
  decrby-IsModal queue mode x y rest h = on_arg-InMode (get_elem? rest 0) λ key.
      on_arg-InMode (get_elem? rest 1) λ text.
        on_parsed-InMode (parse_int64 text) alike λ n. on_context-InMode h.context λ ctx. alike

  pub append-IsModal : IsModal {p = p} (Cmd.append rt p)
  unfolding Cmd.append
  append-IsModal queue mode x y rest h =
      on_arg-InMode (get_elem? rest 0)
        λ key. on_arg-InMode (get_elem? rest 1) λ value. on_context-InMode h.context λ ctx. alike

  pub ping-IsModal : IsModal {p = p} (Cmd.ping rt p)
  unfolding Cmd.ping
  ping-IsModal queue mode x y rest h =
      if-InMode (ltb 1 (length (x ∷ rest))) (on_arg-InMode (get_elem? rest 0) λ text. alike) alike

  set_done-InMode :
      (queue : List Args) (mode : Bool) (h : Handler p) (s : p.State) (o : Option p.State)
      → InMode queue mode
          (returns (Cmd.set_done rt p h s o))
          (returns (Cmd.set_done rt p (with_mode queue mode h) s o))
  set_done-InMode queue mode h s none = alike
  set_done-InMode queue mode h s (some s') = alike

  set_stored-InMode :
      (queue : List Args) (mode : Bool) (x y : Bytes) (rest : Args) (ctx : Context) (key : Bytes)
      (h : Handler p) (s : p.State) (e : Option Error)
      → InMode queue mode
          (Cmd.set_stored rt p (x ∷ rest) ctx key h s e)
          (Cmd.set_stored rt p (y ∷ rest) ctx key (with_mode queue mode h) s e)
  set_stored-InMode queue mode x y rest ctx key h s (some e) = alike
  set_stored-InMode queue mode x y rest ctx key h s none =
      if-InMode (leb 5 (length (x ∷ rest)))
        (on_arg-InMode (get_elem? rest 2)
          λ option. on_arg-InMode (get_elem? rest 3) λ text. set_done-InMode queue mode h s _)
        alike

  pub set-IsModal : IsModal {p = p} (Cmd.set rt p)
  unfolding Cmd.set
  set-IsModal queue mode x y rest h = on_arg-InMode (get_elem? rest 0) λ key.
      on_arg-InMode (get_elem? rest 1) λ value.
        on_context-InMode h.context λ ctx. set_stored-InMode queue mode x y rest ctx key h _ _
