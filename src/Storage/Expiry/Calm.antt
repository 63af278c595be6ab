-- ===== src/Storage/Expiry/Calm.antt =====
-- The operations of the storage but EXPIRE and PERSIST leave the TTL entries and the timers alone.
use keyp.Base.{ℕ, ◌≡◌, refl, ◌∙◌, Bool, true, false, Option, none, some, List, if◌then◌else◌}
use keyp.Bytes.{Bytes}
use keyp.Dict.{Dict}
use keyp.Int64.{add64, sub64}
use keyp.Domain.{Error, Context, db_of}
use keyp.Lmdb.{Lmdb, Reply, on_error}
use keyp.Storage.{Client, has_db, sel, open_db}
use keyp.Storage.KeyType.{Kind, list, check_key_type}
use keyp.Storage.ListCommands.{push, pop, settle}
use keyp.Storage.ListCommands as Lists
use keyp.Storage.Lists.{rpush_value, lpush_value, lpop_value, rpop_value}
use keyp.Storage.Strings as Strings
use keyp.Storage.Strings.{first_error}
use keyp.Storage.Sets as Sets
use keyp.Storage.SortedSets as SortedSets
use keyp.Storage.Counter as Counter

module _ {l : Lmdb} where
  -- The second client has the entries and the timers of the first.
  pub record IsCalm (c c' : Client l) : Type 0 where
    pub same_ttl : c'.ttl ≡ c.ttl
    pub same_timers : c'.timers ≡ c.timers
    pub same_next : c'.next_timer ≡ c.next_timer

  -- The client behind an answer.
  pub record Calm {ℓ} {A : Type ℓ} (c : Client l) (o : Client l × A) : Type ℓ where
    pub calm : IsCalm c o.0

  pub unchanged : {c : Client l} → IsCalm c c
  unchanged = record { same_ttl = refl; same_timers = refl; same_next = refl }

  same {ℓ} : {A : Type ℓ} {c : Client l} {x : A} → Calm c (c, x)
  same = record { calm = unchanged }

  if-Calm {ℓ} :
      {A : Type ℓ} {c : Client l} (b : Bool) {x y : Client l × A}
      → Calm c x
      → Calm c y
      → Calm c (if b then x else y)
  if-Calm true hx hy = hx
  if-Calm false hx hy = hy

  on_error-Calm {ℓ} :
      {A : Type ℓ} {c : Client l} (e : Option Error) {f : Error → Client l × A} {x : Client l × A}
      → ((fault : Error) → Calm c (f fault))
      → Calm c x
      → Calm c (on_error e f x)
  on_error-Calm none bad good = good
  on_error-Calm (some e) bad good = bad e

  sel-Calm : (ctx : Context) (c : Client l) → IsCalm c (sel l ctx c).0
  unfolding sel open_db
  sel-Calm ctx c =
      let opened : Calm c (open_db l (db_of ctx) c) = record {
        calm = record { same_ttl = refl; same_timers = refl; same_next = refl };
      } in
      let chosen = if-Calm {A = Option Error} {c = c} (has_db l (db_of ctx) c) same opened in
      chosen.calm

  -- After `sel`: with an error, a view, or an update.
  selected {ℓ} : {A : Type ℓ} {c : Client l} {x : A} (ctx : Context) → Calm c ((sel l ctx c).0, x)
  selected {c = c} ctx = record { calm = sel-Calm ctx c }

  settled {ℓ κ} :
      {A : Type ℓ} {B : Type κ} {c : Client l} {x : A} (ctx : Context) (r : B × Reply l.Env)
      → Calm c (settle l (sel l ctx c).0 r, x)
  settled {c = c} ctx r =
      let h = sel-Calm ctx c in
      record {
        calm = record {
          same_ttl = h.same_ttl;
          same_timers = h.same_timers;
          same_next = h.same_next;
        };
      }

  ruleset calm_rules = (if-Calm, on_error-Calm, same, selected, settled)

  pub get-Calm : (ctx : Context) (key : Bytes) (c : Client l) → Calm c (Strings.get l ctx key c)
  unfolding Strings.get
  get-Calm ctx key c = search calm_rules depth 7

  pub set-Calm :
      (ctx : Context) (key : Bytes) (value : Bytes) (c : Client l)
      → Calm c (Strings.set l ctx key value c)
  unfolding Strings.set
  set-Calm ctx key value c = search calm_rules depth 7

  pub del-Calm :
      (ctx : Context) (keys : List Bytes) (c : Client l) → Calm c (Strings.del l ctx keys c)
  unfolding Strings.del
  del-Calm ctx keys c = search calm_rules depth 7

  pub exists-Calm :
      (ctx : Context) (key : Bytes) (c : Client l) → Calm c (Strings.exists l ctx key c)
  unfolding Strings.exists
  exists-Calm ctx key c = search calm_rules depth 7

  pub append-Calm :
      (ctx : Context) (key : Bytes) (value : Bytes) (c : Client l)
      → Calm c (Strings.append l ctx key value c)
  unfolding Strings.append
  append-Calm ctx key value c = search calm_rules depth 7

  pub flush_all-Calm : (ctx : Context) (c : Client l) → Calm c (Strings.flush_all l ctx c)
  unfolding Strings.flush_all
  flush_all-Calm ctx c = search calm_rules depth 7

  pub llen-Calm : (ctx : Context) (key : Bytes) (c : Client l) → Calm c (Lists.llen l ctx key c)
  unfolding Lists.llen
  llen-Calm ctx key c = search calm_rules depth 7

  pub lindex-Calm :
      (ctx : Context) (key : Bytes) (index : ℕ) (c : Client l)
      → Calm c (Lists.lindex l ctx key index c)
  unfolding Lists.lindex
  lindex-Calm ctx key index c = search calm_rules depth 7

  pub lrange-Calm :
      (ctx : Context) (key : Bytes) (start stop : ℕ) (c : Client l)
      → Calm c (Lists.lrange l ctx key start stop c)
  unfolding Lists.lrange
  lrange-Calm ctx key start stop c = search calm_rules depth 7

  pub lset-Calm :
      (ctx : Context) (key : Bytes) (index : ℕ) (value : Bytes) (c : Client l)
      → Calm c (Lists.lset l ctx key index value c)
  unfolding Lists.lset
  lset-Calm ctx key index value c = search calm_rules depth 7

  pop-Calm :
      (take_off : Bytes → Reply (Bytes × Option Bytes)) (ctx : Context) (key : Bytes) (c : Client l)
      → Calm c (pop l take_off ctx key c)
  unfolding pop
  pop-Calm take_off ctx key c = search calm_rules depth 7

  pub lpop-Calm : (ctx : Context) (key : Bytes) (c : Client l) → Calm c (Lists.lpop l ctx key c)
  unfolding Lists.lpop
  lpop-Calm ctx key c = pop-Calm lpop_value ctx key c

  pub rpop-Calm : (ctx : Context) (key : Bytes) (c : Client l) → Calm c (Lists.rpop l ctx key c)
  unfolding Lists.rpop
  rpop-Calm ctx key c = pop-Calm rpop_value ctx key c

  check_key_type-Calm :
      (i : ℕ) (ctx : Context) (key : Bytes) (kind : Kind) (c : Client l)
      → Calm c (check_key_type l i ctx key kind c)
  unfolding check_key_type
  check_key_type-Calm i ctx key kind c = search calm_rules depth 7

  after-Calm {ℓ} :
      {A : Type ℓ} {c c' : Client l} {o : Client l × A} → IsCalm c c' → Calm c' o → Calm c o
  after-Calm h k = record {
    calm = record {
      same_ttl = k.calm.same_ttl ∙ h.same_ttl;
      same_timers = k.calm.same_timers ∙ h.same_timers;
      same_next = k.calm.same_next ∙ h.same_next;
    };
  }

  push-Calm :
      (value_of : Reply Bytes → List Bytes → ℕ × Bytes) (ctx : Context) (key : Bytes)
      (values : List Bytes) (c : Client l)
      → Calm c (push l value_of ctx key values c)
  unfolding push
  push-Calm value_of ctx key values c =
      let checked = (check_key_type-Calm 1 ctx key list c).calm in
      search (calm_rules, checked, after-Calm) depth 8

  pub lpush-Calm :
      (ctx : Context) (key : Bytes) (values : List Bytes) (c : Client l)
      → Calm c (Lists.lpush l ctx key values c)
  unfolding Lists.lpush
  lpush-Calm ctx key values c = push-Calm lpush_value ctx key values c

  pub rpush-Calm :
      (ctx : Context) (key : Bytes) (values : List Bytes) (c : Client l)
      → Calm c (Lists.rpush l ctx key values c)
  unfolding Lists.rpush
  rpush-Calm ctx key values c = push-Calm rpush_value ctx key values c

  pub sadd-Calm :
      (order : List Bytes → List Bytes) (ctx : Context) (key : Bytes) (members : List Bytes)
      (c : Client l)
      → Calm c (Sets.sadd l order ctx key members c)
  unfolding Sets.sadd
  sadd-Calm order ctx key members c = search calm_rules depth 7

  pub srem-Calm :
      (order : List Bytes → List Bytes) (ctx : Context) (key : Bytes) (members : List Bytes)
      (c : Client l)
      → Calm c (Sets.srem l order ctx key members c)
  unfolding Sets.srem
  srem-Calm order ctx key members c = search calm_rules depth 7

  pub smembers-Calm :
      (ctx : Context) (key : Bytes) (c : Client l) → Calm c (Sets.smembers l ctx key c)
  unfolding Sets.smembers
  smembers-Calm ctx key c = search calm_rules depth 7

  pub sismember-Calm :
      (ctx : Context) (key : Bytes) (m : Bytes) (c : Client l)
      → Calm c (Sets.sismember l ctx key m c)
  unfolding Sets.sismember
  sismember-Calm ctx key m c = search calm_rules depth 7

  pub zadd-Calm :
      (order : Dict Bytes ℕ → Dict Bytes ℕ) (ctx : Context) (key : Bytes) (score : ℕ) (m : Bytes)
      (c : Client l)
      → Calm c (SortedSets.zadd l order ctx key score m c)
  unfolding SortedSets.zadd
  zadd-Calm order ctx key score m c = search calm_rules depth 7

  pub zrange-Calm :
      (ctx : Context) (key : Bytes) (start stop : ℕ) (c : Client l)
      → Calm c (SortedSets.zrange l ctx key start stop c)
  unfolding SortedSets.zrange
  zrange-Calm ctx key start stop c = search calm_rules depth 7

  pub zcount-Calm :
      (ctx : Context) (key : Bytes) (low high : ℕ) (c : Client l)
      → Calm c (SortedSets.zcount l ctx key low high c)
  unfolding SortedSets.zcount
  zcount-Calm ctx key low high c = search calm_rules depth 7

  modify_integer_by-Calm :
      (ctx : Context) (key : Bytes) (delta : ℕ) (operation : ℕ → ℕ → ℕ) (c : Client l)
      → Calm c (Counter.modify_integer_by l ctx key delta operation c)
  unfolding Counter.modify_integer_by
  modify_integer_by-Calm ctx key delta operation c = search calm_rules depth 7

  pub incr_by-Calm :
      (ctx : Context) (key : Bytes) (delta : ℕ) (c : Client l)
      → Calm c (Counter.incr_by l ctx key delta c)
  unfolding Counter.incr_by
  incr_by-Calm ctx key delta c = modify_integer_by-Calm ctx key delta add64 c

  pub decr_by-Calm :
      (ctx : Context) (key : Bytes) (delta : ℕ) (c : Client l)
      → Calm c (Counter.decr_by l ctx key delta c)
  unfolding Counter.decr_by
  decr_by-Calm ctx key delta c = modify_integer_by-Calm ctx key delta sub64 c

  pub incr-Calm : (ctx : Context) (key : Bytes) (c : Client l) → Calm c (Counter.incr l ctx key c)
  unfolding Counter.incr
  incr-Calm ctx key c = incr_by-Calm ctx key 1 c

  pub decr-Calm : (ctx : Context) (key : Bytes) (c : Client l) → Calm c (Counter.decr l ctx key c)
  unfolding Counter.decr
  decr-Calm ctx key c = decr_by-Calm ctx key 1 c
