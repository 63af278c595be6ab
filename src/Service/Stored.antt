-- ===== src/Service/Stored.antt =====
-- The storage as the handlers see it: the `Persister` of cmd/keyp, with the clock.
pub mod Commands
pub mod Pipelines
pub mod Expiring
use keyp.Base.{ℕ, List}
use keyp.Bytes.{Bytes}
use keyp.Dict.{Dict}
use keyp.Lmdb.{Lmdb}
use keyp.Service.{Persister}
use keyp.Storage.{Client}
use keyp.Storage.Strings as Strings
use keyp.Storage.ListCommands as Lists
use keyp.Storage.Sets as Sets
use keyp.Storage.SortedSets as SortedSets
use keyp.Storage.Counter as Counter
use keyp.Storage.Expiry as Expiry

-- The client and the clock, which `time.Now().Unix()` reads.
pub record Clocked (l : Lmdb) : Type 0 where
  pub client : Client l
  pub now : ℕ

module _ {l : Lmdb} where
  abbrev pub moment : ℕ → Client l → Clocked l
  moment now c = record { client = c; now = now }

  -- A method that does not look at the clock.
  abbrev on_client {ℓ} : {A : Type ℓ} → (Client l → Client l × A) → Clocked l → Clocked l × A
  on_client f s = let (c, x) = f s.client in (record s { client = c }, x)

abbrev pub stored :
    (l : Lmdb) → (List Bytes → List Bytes) → (Dict Bytes ℕ → Dict Bytes ℕ) → Persister
stored l order score_order = record {
  State = Clocked l;
  set = λ ctx key value. on_client (Strings.set l ctx key value);
  get = λ ctx key. on_client (Strings.get l ctx key);
  del = λ ctx keys. on_client (Strings.del l ctx keys);
  ttl = λ ctx key s. (s, Expiry.ttl s.now ctx key s.client);
  persist = λ ctx key. on_client (Expiry.persist ctx key);
  expire = λ ctx key secs s. record s { client = Expiry.expire s.now ctx key secs s.client };
  exists = λ ctx key. on_client (Strings.exists l ctx key);
  llen = λ ctx key. on_client (Lists.llen l ctx key);
  lindex = λ ctx key i. on_client (Lists.lindex l ctx key i);
  lset = λ ctx key i value. on_client (Lists.lset l ctx key i value);
  lpush = λ ctx key values. on_client (Lists.lpush l ctx key values);
  rpush = λ ctx key values. on_client (Lists.rpush l ctx key values);
  lpop = λ ctx key. on_client (Lists.lpop l ctx key);
  rpop = λ ctx key. on_client (Lists.rpop l ctx key);
  lrange = λ ctx key start stop. on_client (Lists.lrange l ctx key start stop);
  flush_all = λ ctx. on_client (Strings.flush_all l ctx);
  sadd = λ ctx key members. on_client (Sets.sadd l order ctx key members);
  srem = λ ctx key members. on_client (Sets.srem l order ctx key members);
  smembers = λ ctx key. on_client (Sets.smembers l ctx key);
  sismember = λ ctx key m. on_client (Sets.sismember l ctx key m);
  zadd = λ ctx key score m. on_client (SortedSets.zadd l score_order ctx key score m);
  zrange = λ ctx key start stop. on_client (SortedSets.zrange l ctx key start stop);
  zcount = λ ctx key low high. on_client (SortedSets.zcount l ctx key low high);
  incr = λ ctx key. on_client (Counter.incr l ctx key);
  incr_by = λ ctx key n. on_client (Counter.incr_by l ctx key n);
  decr = λ ctx key. on_client (Counter.decr l ctx key);
  decr_by = λ ctx key n. on_client (Counter.decr_by l ctx key n);
  append = λ ctx key value. on_client (Strings.append l ctx key value);
}
