-- ===== src/Storage/Expiry.antt =====
-- expire.go, ttl.go and persist.go, with `setTimeout` of utils.go: a timer is an entry of the client
-- that fires as a step of its own. The time is a number of seconds.
pub mod Laws
pub mod Timers
pub mod Calm
pub mod Reached
use keyp.Base.{ℕ, ◌+◌, ◌-◌, ◌%◌, ◌^◌, Bool, true, false, Option, none, some, [], if◌then◌else◌, leb}
use keyp.Base.{◌∷◌}
use keyp.Bytes.{Bytes}
use keyp.Dict.{Dict, lookup, insert, delete, nat_eq, string_eq}
use keyp.Domain.{Context, db_of}
use keyp.Lmdb.{Lmdb}
use keyp.Storage.{Client, Timer, Ttl}
use keyp.Storage.Strings.{del}

abbrev or_empty : Option (Dict Bytes Ttl) → Dict Bytes Ttl
or_empty none = []
or_empty (some keys) = keys

-- `keys, hasKeys := client.ttl[db]`, empty where there is none.
unfoldable pub keys_of : ℕ → Dict ℕ (Dict Bytes Ttl) → Dict Bytes Ttl
keys_of db ttl = or_empty (lookup db ttl)

-- `running = false`
unfoldable pub stop : Option Timer → ℕ → Dict ℕ Timer → Dict ℕ Timer
stop none n timers = timers
stop (some timer) n timers = insert n (record timer { running = false }) timers

-- The function that `setTimeout` returns.
unfoldable pub cancel_timer : ℕ → Dict ℕ Timer → Dict ℕ Timer
unfolding stop
cancel_timer n timers = stop (lookup n timers) n timers

unfoldable pub cancel_old : Option Ttl → Dict ℕ Timer → Dict ℕ Timer
unfolding cancel_timer
cancel_old none timers = timers
cancel_old (some ttl) timers = cancel_timer ttl.cancel timers

unfoldable pub remaining : Option Ttl → ℕ → ℕ
remaining none now = 0
remaining (some ttl) now = if leb ttl.expire now then 0 else ttl.expire - now

module _ {l : Lmdb} where
  unfoldable pub expire : ℕ → Context → Bytes → ℕ → Client l → Client l
  unfolding keys_of cancel_old
  expire now ctx key secs c =
      let db = db_of ctx in
      let keys = keys_of db c.ttl in
      let n = c.next_timer in
      let timer : Timer = record { running = true; due = now + secs; ctx = ctx; key = key } in
      record c {
        ttl =
            insert db
              (insert key (record { expire = (now % 2 ^ 32 + secs) % 2 ^ 32; cancel = n }) keys)
              c.ttl;
        timers = insert n timer (cancel_old (lookup key keys) c.timers);
        next_timer = n + 1;
      }

  unfoldable pub ttl : ℕ → Context → Bytes → Client l → ℕ
  unfolding keys_of remaining
  ttl now ctx key c = remaining (lookup key (keys_of (db_of ctx) c.ttl)) (now % 2 ^ 32)

  unfoldable pub forget : Option Ttl → ℕ → Bytes → Client l → Client l × Bool
  unfolding keys_of cancel_timer
  forget none db key c = (c, false)
  forget (some old) db key c = (
    record c {
      ttl = insert db (delete key (keys_of db c.ttl)) c.ttl;
      timers = cancel_timer old.cancel c.timers;
    },
    true,
  )

  unfoldable pub persist : Context → Bytes → Client l → Client l × Bool
  unfolding keys_of forget
  persist ctx key c = forget (lookup key (keys_of (db_of ctx) c.ttl)) (db_of ctx) key c

module _ (l : Lmdb) where
  unfoldable pub fire_timer : Option Timer → Client l → Client l
  fire_timer none c = c
  fire_timer (some timer) c =
      let (c', deleted) = del l timer.ctx (timer.key ∷ []) c in if timer.running then c' else c

  -- The runtime runs the function of a timer once; its `Del` ignores the answer.
  unfoldable pub fire : ℕ → Client l → Client l
  unfolding fire_timer
  fire n c = fire_timer (lookup n c.timers) (record c { timers = delete n c.timers })
