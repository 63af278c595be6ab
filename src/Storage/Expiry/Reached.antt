-- ===== src/Storage/Expiry/Reached.antt =====
-- The client as it may become: any operations of the storage, and timers that fire, in any order.
use keyp.Base.{
  ℕ, ◌≡◌, refl, sym, ap, ◌∙◌, ==_refl, Bool-cases, inl, inr, if◌then◌else◌, arith, true, false,
  Option, none, some, List, [], ◌∷◌,
}
use keyp.Bytes.{Bytes, bytes_eq_refl}
use keyp.Dict.{Dict, lookup, nat_eq, string_eq}
use keyp.Dict.Laws.{lookup-delete}
use keyp.Storage.Expiry.Laws.{entry-insert}
use keyp.Domain.{Context, db_of}
use keyp.Lmdb.{Lmdb, same_place}
use keyp.Storage.{Client, Timer, Ttl}
use keyp.Storage.Strings as Strings
use keyp.Storage.ListCommands as Lists
use keyp.Storage.Sets as Sets
use keyp.Storage.SortedSets as SortedSets
use keyp.Storage.Counter as Counter
use keyp.Storage.Expiry.{expire, persist, forget, keys_of, fire, fire_timer}
use keyp.Storage.Expiry.Timers.{
  IsTimed, expire-IsTimed, persist-IsTimed, delete-IsTimed, entry_of, same_place-equal,
}
use keyp.Storage.Expiry.Calm.{IsCalm, Calm}
use keyp.Storage.Expiry.Calm as Calm

module _ {l : Lmdb} where
  -- One operation, with its answer left out, or a timer that fires.
  pub data Step (c : Client l) : Client l → Type 0 where
    sets : (ctx : Context) (key value : Bytes) → Step c (Strings.set l ctx key value c).0
    gets : (ctx : Context) (key : Bytes) → Step c (Strings.get l ctx key c).0
    deletes : (ctx : Context) (keys : List Bytes) → Step c (Strings.del l ctx keys c).0
    looks : (ctx : Context) (key : Bytes) → Step c (Strings.exists l ctx key c).0
    appends : (ctx : Context) (key value : Bytes) → Step c (Strings.append l ctx key value c).0
    flushes : (ctx : Context) → Step c (Strings.flush_all l ctx c).0
    expires :
        (now : ℕ) (ctx : Context) (key : Bytes) (secs : ℕ) → Step c (expire now ctx key secs c)
    persists : (ctx : Context) (key : Bytes) → Step c (persist ctx key c).0
    llens : (ctx : Context) (key : Bytes) → Step c (Lists.llen l ctx key c).0
    lindexes : (ctx : Context) (key : Bytes) (i : ℕ) → Step c (Lists.lindex l ctx key i c).0
    lsets :
        (ctx : Context) (key : Bytes) (i : ℕ) (value : Bytes)
        → Step c (Lists.lset l ctx key i value c).0
    lpushes :
        (ctx : Context) (key : Bytes) (values : List Bytes)
        → Step c (Lists.lpush l ctx key values c).0
    rpushes :
        (ctx : Context) (key : Bytes) (values : List Bytes)
        → Step c (Lists.rpush l ctx key values c).0
    lpops : (ctx : Context) (key : Bytes) → Step c (Lists.lpop l ctx key c).0
    rpops : (ctx : Context) (key : Bytes) → Step c (Lists.rpop l ctx key c).0
    lranges :
        (ctx : Context) (key : Bytes) (start stop : ℕ)
        → Step c (Lists.lrange l ctx key start stop c).0
    sadds :
        (order : List Bytes → List Bytes) (ctx : Context) (key : Bytes) (members : List Bytes)
        → Step c (Sets.sadd l order ctx key members c).0
    srems :
        (order : List Bytes → List Bytes) (ctx : Context) (key : Bytes) (members : List Bytes)
        → Step c (Sets.srem l order ctx key members c).0
    lists_members : (ctx : Context) (key : Bytes) → Step c (Sets.smembers l ctx key c).0
    finds_member : (ctx : Context) (key m : Bytes) → Step c (Sets.sismember l ctx key m c).0
    zadds :
        (order : Dict Bytes ℕ → Dict Bytes ℕ) (ctx : Context) (key : Bytes) (score : ℕ) (m : Bytes)
        → Step c (SortedSets.zadd l order ctx key score m c).0
    zranges :
        (ctx : Context) (key : Bytes) (start stop : ℕ)
        → Step c (SortedSets.zrange l ctx key start stop c).0
    zcounts :
        (ctx : Context) (key : Bytes) (low high : ℕ)
        → Step c (SortedSets.zcount l ctx key low high c).0
    incrs : (ctx : Context) (key : Bytes) → Step c (Counter.incr l ctx key c).0
    decrs : (ctx : Context) (key : Bytes) → Step c (Counter.decr l ctx key c).0
    incrs_by : (ctx : Context) (key : Bytes) (n : ℕ) → Step c (Counter.incr_by l ctx key n c).0
    decrs_by : (ctx : Context) (key : Bytes) (n : ℕ) → Step c (Counter.decr_by l ctx key n c).0
    fires : (n : ℕ) → Step c (fire l n c)

  -- From a client without TTL entries and timers, as NewClient makes it.
  pub data IsReached : Client l → Type 0 where
    starts : (c : Client l) → c.ttl ≡ [] → c.timers ≡ [] → IsReached c
    steps : {c c' : Client l} → IsReached c → Step c c' → IsReached c'

  Calm-IsTimed : {c c' : Client l} → IsCalm c c' → IsTimed c → IsTimed c'
  Calm-IsTimed {c = c} {c' = c'} calm h =
      let timers : (n : ℕ) → lookup n c'.timers ≡ lookup n c.timers =
        λ n. ap (lookup n) calm.same_timers in
      record {
        fresh = λ n t found. rw (calm.same_next) (h.fresh n t (sym (timers n) ∙ found));
        owned = λ n t found running.
            let named = h.owned n t (sym (timers n) ∙ found) running in
            record {
              entry = named.entry;
              there = ap (λ m. lookup t.key (keys_of (db_of t.ctx) m)) calm.same_ttl ∙ named.there;
              cancels = named.cancels;
            };
      }

  starts-IsTimed : (c : Client l) → c.timers ≡ [] → IsTimed c
  unfolding lookup
  starts-IsTimed c no_timers =
      let empty : (n : ℕ) → lookup n c.timers ≡ none = λ n. ap (lookup n) no_timers in
      record {
        fresh = λ n t found. absurd (ground (arith, empty n, found));
        owned = λ n t found running. absurd (ground (arith, empty n, found));
      }

  fire_timer-IsTimed : (o : Option Timer) (c : Client l) → IsTimed c → IsTimed (fire_timer l o c)
  unfolding fire_timer
  fire_timer-IsTimed none c h = h
  fire_timer-IsTimed (some t) c h =
      let fired = Calm-IsTimed (Calm.del-Calm t.ctx (t.key ∷ []) c).calm h in
      elim t.running as (λ b. IsTimed (if b then (Strings.del l t.ctx (t.key ∷ []) c).0 else c)) [
        | true ↦ fired
        | false ↦ h
      ]

  fire-IsTimed : (n : ℕ) (c : Client l) → IsTimed c → IsTimed (fire l n c)
  unfolding fire
  fire-IsTimed n c h = fire_timer-IsTimed (lookup n c.timers) _ (delete-IsTimed n c h)

  Step-IsTimed : (c c' : Client l) → Step c c' → IsTimed c → IsTimed c'
  Step-IsTimed c _ (expires now ctx key secs) h = expire-IsTimed now ctx key secs c h
  Step-IsTimed c _ (persists ctx key) h = persist-IsTimed ctx key c h
  Step-IsTimed c _ (fires n) h = fire-IsTimed n c h
  Step-IsTimed c _ (sets ctx key value) h = Calm-IsTimed (Calm.set-Calm ctx key value c).calm h
  Step-IsTimed c _ (gets ctx key) h = Calm-IsTimed (Calm.get-Calm ctx key c).calm h
  Step-IsTimed c _ (deletes ctx keys) h = Calm-IsTimed (Calm.del-Calm ctx keys c).calm h
  Step-IsTimed c _ (looks ctx key) h = Calm-IsTimed (Calm.exists-Calm ctx key c).calm h
  Step-IsTimed c _ (appends ctx key value) h =
      Calm-IsTimed (Calm.append-Calm ctx key value c).calm h
  Step-IsTimed c _ (flushes ctx) h = Calm-IsTimed (Calm.flush_all-Calm ctx c).calm h
  Step-IsTimed c _ (llens ctx key) h = Calm-IsTimed (Calm.llen-Calm ctx key c).calm h
  Step-IsTimed c _ (lindexes ctx key i) h = Calm-IsTimed (Calm.lindex-Calm ctx key i c).calm h
  Step-IsTimed c _ (lsets ctx key i value) h =
      Calm-IsTimed (Calm.lset-Calm ctx key i value c).calm h
  Step-IsTimed c _ (lpushes ctx key values) h =
      Calm-IsTimed (Calm.lpush-Calm ctx key values c).calm h
  Step-IsTimed c _ (rpushes ctx key values) h =
      Calm-IsTimed (Calm.rpush-Calm ctx key values c).calm h
  Step-IsTimed c _ (lpops ctx key) h = Calm-IsTimed (Calm.lpop-Calm ctx key c).calm h
  Step-IsTimed c _ (rpops ctx key) h = Calm-IsTimed (Calm.rpop-Calm ctx key c).calm h
  Step-IsTimed c _ (lranges ctx key start stop) h =
      Calm-IsTimed (Calm.lrange-Calm ctx key start stop c).calm h
  Step-IsTimed c _ (sadds order ctx key members) h =
      Calm-IsTimed (Calm.sadd-Calm order ctx key members c).calm h
  Step-IsTimed c _ (srems order ctx key members) h =
      Calm-IsTimed (Calm.srem-Calm order ctx key members c).calm h
  Step-IsTimed c _ (lists_members ctx key) h = Calm-IsTimed (Calm.smembers-Calm ctx key c).calm h
  Step-IsTimed c _ (finds_member ctx key m) h =
      Calm-IsTimed (Calm.sismember-Calm ctx key m c).calm h
  Step-IsTimed c _ (zadds order ctx key score m) h =
      Calm-IsTimed (Calm.zadd-Calm order ctx key score m c).calm h
  Step-IsTimed c _ (zranges ctx key start stop) h =
      Calm-IsTimed (Calm.zrange-Calm ctx key start stop c).calm h
  Step-IsTimed c _ (zcounts ctx key low high) h =
      Calm-IsTimed (Calm.zcount-Calm ctx key low high c).calm h
  Step-IsTimed c _ (incrs ctx key) h = Calm-IsTimed (Calm.incr-Calm ctx key c).calm h
  Step-IsTimed c _ (decrs ctx key) h = Calm-IsTimed (Calm.decr-Calm ctx key c).calm h
  Step-IsTimed c _ (incrs_by ctx key n) h = Calm-IsTimed (Calm.incr_by-Calm ctx key n c).calm h
  Step-IsTimed c _ (decrs_by ctx key n) h = Calm-IsTimed (Calm.decr_by-Calm ctx key n c).calm h

  -- Whatever operations of the storage run and whatever timers fire, in any order, from a client
  -- without TTL entries and timers: numbers of timers are not used twice, and a timer that runs
  -- is the one that the TTL entry of its key names.
  pub IsReached-IsTimed : (c : Client l) → IsReached c → IsTimed c
  IsReached-IsTimed c (starts _ no_entries no_timers) = starts-IsTimed c no_timers
  IsReached-IsTimed c (steps {c = before} reached step) =
      Step-IsTimed before c step (IsReached-IsTimed before reached)

  forget-entry :
      (o : Option Ttl) (db : ℕ) (key : Bytes) (c : Client l)
      → entry_of c db key ≡ o
      → entry_of (forget o db key c).0 db key ≡ none
  unfolding forget
  forget-entry none db key c there = there
  forget-entry (some old) db key c there =
      entry-insert db db key key none _ c.ttl (λ j. lookup-delete {K = Bytes} key j _)
      ∙ rw (==_refl db, bytes_eq_refl key) refl

  persist-entry :
      (ctx : Context) (key : Bytes) (c : Client l)
      → entry_of (persist ctx key c).0 (db_of ctx) key ≡ none
  unfolding persist
  persist-entry ctx key c = forget-entry (entry_of c (db_of ctx) key) (db_of ctx) key c refl

  -- In every state that operations of the storage and timers reach, from a client without TTL
  -- entries and timers: after PERSIST no timer of the key runs, whenever it was set.
  pub persist-stops :
      (ctx : Context) (key : Bytes) (c : Client l) (n : ℕ) (t : Timer)
      → IsReached c
      → lookup n (persist ctx key c).0.timers ≡ some t
      → same_place (db_of ctx) key (db_of t.ctx) t.key ≡ true
      → t.running ≡ false
  persist-stops ctx key c n t reached found same = elim (Bool-cases t.running) [
    | inl running ↦
        let c' : Client l = (persist ctx key c).0 in
        let named =
          (persist-IsTimed ctx key c (IsReached-IsTimed c reached)).owned n t found running in
        let (same_db, same_key) = same_place-equal (db_of ctx) (db_of t.ctx) key t.key same in
        let gone : entry_of c' (db_of t.ctx) t.key ≡ none =
          ap (λ d. entry_of c' d t.key) (sym same_db)
          ∙ ap (entry_of c' (db_of ctx)) (sym same_key)
          ∙ persist-entry ctx key c in
        let there = named.there in absurd (ground (arith, gone, there))
    | inr stopped ↦ stopped
  ]
