-- ===== src/Storage/Expiry/Laws.antt =====
-- What EXPIRE, TTL, PERSIST and the timers do together.
use keyp.Base.{
  ℕ, ◌+◌, ◌-◌, ◌%◌, ◌^◌, ◌<◌, ◌≡◌, refl, sym, ap, ◌∙◌, arith, Bool, true, false, ◌||◌, ◌==◌,
}
use keyp.Base.{Option, inl, inr, none, some, [], if◌then◌else◌, Bool-cases, ==_refl, ==_iff}
use keyp.Bytes.{Bytes, bytes_eq, bytes_eq_refl}
use keyp.Dict.{Dict, lookup, insert, delete, nat_eq, string_eq}
use keyp.Dict.Laws.{lookup-insert, lookup-delete}
use keyp.Domain.{Context, db_of, not_found}
use keyp.Lmdb.{Lmdb, err, IsStore, IsReliable, same_place}
use keyp.Storage.Strings.Removal.{del_refines}
use keyp.Storage.ListCommands.Ready.{IsReady}
use keyp.Storage.ListCommands.Pushes.{Differs}
use mathlib.Core.Path.{subst}
use keyp.Storage.{Client, Timer, Ttl}
use keyp.Storage.Expiry.{
  keys_of, stop, cancel_timer, cancel_old, expire, remaining, ttl, forget, persist, fire_timer,
  fire,
}

keys_of-insert :
    (db db' : ℕ) (keys : Dict Bytes Ttl) (m : Dict ℕ (Dict Bytes Ttl))
    → keys_of db' (insert db keys m) ≡ (if db' == db then keys else keys_of db' m)
unfolding keys_of
keys_of-insert db db' keys m =
    rw (keys_of, lookup-insert {K = ℕ} db db' keys m)
      (elim (Bool-cases (db' == db)) [ inl same ↦ rw same refl | inr other ↦ rw other refl ])

-- The entry of a key after one write to the maps: `o` is what the write leaves at its own key.
pub entry-insert :
    (db db' : ℕ) (key key' : Bytes) (o : Option Ttl) (keys : Dict Bytes Ttl)
    (m : Dict ℕ (Dict Bytes Ttl))
    → ((j : Bytes) → lookup j keys ≡ (if bytes_eq j key then o else lookup j (keys_of db m)))
    → lookup key' (keys_of db' (insert db keys m))
      ≡ (if same_place db key db' key' then o else lookup key' (keys_of db' m))
entry-insert db db' key key' o keys m written = rw (keys_of-insert) (elim (Bool-cases (db' == db)) [
  | inl same ↦ let e : db' ≡ db = (==_iff db' db).0 same in rw (same, e, written key') refl
  | inr other ↦ rw other refl
])

-- The timer that an entry names, after it was stopped.
cancelled :
    (n : ℕ) (timers : Dict ℕ Timer) (timer : Timer)
    → lookup n timers ≡ some timer
    → lookup n (cancel_timer n timers) ≡ some (record timer { running = false })
unfolding cancel_timer stop
cancelled n timers timer found = rw (found, stop, lookup-insert {K = ℕ} n n, ==_refl n) refl

abbrev set_timer : Context → Bytes → ℕ → ℕ → Timer
set_timer ctx key now secs = record { running = true; due = now + secs; ctx = ctx; key = key }

module _ {l : Lmdb} where
  -- With the times and the end of the timer below 2 ^ 32: TTL after EXPIRE is what is left of the
  -- seconds, at the same key of the same database; every other key keeps its own.
  pub ttl-expire :
      (ctx ctx' : Context) (key key' : Bytes) (now now' secs : ℕ) (c : Client l)
      → now + secs < 2 ^ 32
      → now' < 2 ^ 32
      → ttl now' ctx' key' (expire now ctx key secs c) ≡ (
          if same_place (db_of ctx) key (db_of ctx') key'
          then now + secs - now'
          else ttl now' ctx' key' c)
  unfolding ttl expire remaining
  ttl-expire ctx ctx' key key' now now' secs c fits fits' =
      rw
        (entry-insert (db_of ctx) (db_of ctx') key key' _ _ c.ttl
          (λ j. lookup-insert {K = Bytes} key j _ _))
        (elim (Bool-cases (same_place (db_of ctx) key (db_of ctx') key')) [
          | inl same ↦ rw same (ground arith)
          | inr other ↦ rw other refl
        ])

  entry_after :
      (ctx : Context) (key : Bytes) (now secs : ℕ) (c : Client l)
      → lookup key (keys_of (db_of ctx) (expire now ctx key secs c).ttl)
        ≡ some (record { expire = (now % 2 ^ 32 + secs) % 2 ^ 32; cancel = c.next_timer })
  unfolding expire
  entry_after ctx key now secs c =
      entry-insert (db_of ctx) (db_of ctx) key key _ _ c.ttl
        (λ j. lookup-insert {K = Bytes} key j _ _)
      ∙ rw (==_refl (db_of ctx), bytes_eq_refl key) refl

  timer_after :
      (ctx : Context) (key : Bytes) (now secs : ℕ) (c : Client l)
      → lookup c.next_timer (expire now ctx key secs c).timers ≡ some (set_timer ctx key now secs)
  unfolding expire
  timer_after ctx key now secs c =
      rw (lookup-insert {K = ℕ} c.next_timer c.next_timer, ==_refl c.next_timer) refl

  -- EXPIRE stops the timer of the old entry and changes no other.
  second_timers :
      (ctx : Context) (key : Bytes) (now secs : ℕ) (c : Client l) (n : ℕ)
      → (n == c.next_timer) ≡ false
      → lookup n (expire now ctx key secs c).timers
        ≡ lookup n (cancel_old (lookup key (keys_of (db_of ctx) c.ttl)) c.timers)
  unfolding expire
  second_timers ctx key now secs c n other = rw (lookup-insert {K = ℕ} c.next_timer n, other) refl

  -- A stopped timer changes nothing.
  fire-stopped :
      (n : ℕ) (timer : Timer) (c : Client l)
      → lookup n c.timers ≡ some (record timer { running = false })
      → (fire l n c).env ≡ c.env
  unfolding fire fire_timer
  fire-stopped n timer c stopped = rw stopped refl

  -- PERSIST after EXPIRE says that it removed something; the key then has no TTL, and the timer
  -- changes nothing when it fires.
  persist-expire :
      (ctx : Context) (key : Bytes) (now now' secs : ℕ) (c : Client l)
      → ((persist ctx key (expire now ctx key secs c)).1 ≡ true)
        × (ttl now' ctx key (persist ctx key (expire now ctx key secs c)).0 ≡ 0)
        × ((fire l c.next_timer (persist ctx key (expire now ctx key secs c)).0).env ≡ c.env)
  persist-expire ctx key now now' secs c =
      let c' : Client l = expire now ctx key secs c in
      let after : persist ctx key c' ≡ (
        record c' {
          ttl = insert (db_of ctx) (delete key (keys_of (db_of ctx) c'.ttl)) c'.ttl;
          timers = cancel_timer c.next_timer c'.timers;
        },
        true,
      ) =
        unfold persist forget in rw (entry_after ctx key now secs c) refl in
      (
        rw after refl,
        rw after (
            unfold ttl remaining in
            rw
              (
                entry-insert (db_of ctx) (db_of ctx) key key none _ c'.ttl
                    (λ j. lookup-delete {K = Bytes} key j _),
                ==_refl (db_of ctx),
                bytes_eq_refl key,
              )
              refl),
        rw after (
            fire-stopped c.next_timer (set_timer ctx key now secs) _
              (cancelled c.next_timer c'.timers _ (timer_after ctx key now secs c))
            ∙ unfold expire in refl),
      )

  -- EXPIRE again stops the timer of the first one.
  pub expire-expire :
      (ctx : Context) (key : Bytes) (now now' secs secs' : ℕ) (c : Client l)
      → (fire l c.next_timer (expire now' ctx key secs' (expire now ctx key secs c))).env ≡ c.env
  expire-expire ctx key now now' secs secs' c =
      let c' : Client l = expire now ctx key secs c in
      let other' : (c.next_timer == c'.next_timer) ≡ false = unfold expire in ground arith in
      let stopped : lookup c.next_timer (expire now' ctx key secs' c').timers
          ≡ some (record (set_timer ctx key now secs) { running = false }) =
        second_timers ctx key now' secs' c' c.next_timer other'
        ∙ ap (λ o. lookup c.next_timer (cancel_old o c'.timers)) (entry_after ctx key now secs c)
        ∙ unfold cancel_old in
          cancelled c.next_timer c'.timers (set_timer ctx key now secs)
            (timer_after ctx key now secs c) in
      fire-stopped c.next_timer (set_timer ctx key now secs) (expire now' ctx key secs' c') stopped
      ∙ unfold expire in refl

or_false : (b : Bool) → (b || false) ≡ b
or_false true = refl
or_false false = refl

module _ {l : Lmdb} (s : IsStore l) (r : IsReliable l) where
  -- The client after the timer fired: its function ran `Del` in the contents of that moment.
  pub fired :
      (ctx : Context) (key : Bytes) (now secs : ℕ) (c : Client l) (d : ℕ) (t : l.Env)
      → IsReady l ctx key c d
      → (t' : l.Env) × (fire l c.next_timer (record (expire now ctx key secs c) { env = t })
          ≡ record (expire now ctx key secs c) {
            env = t';
            timers = delete c.next_timer (expire now ctx key secs c).timers;
          })
        × Differs l t d key (err not_found) t'
  fired ctx key now secs c d t ready =
      let c' : Client l = record (expire now ctx key secs c) { env = t } in
      let later : Client l = record c' { timers = delete c.next_timer c'.timers } in
      let (t', run, removed) =
        del_refines s r ctx key [] later d ready.live (unfold expire in ready.opened)
          ((ready.key_given, ready.key_short), tt) (omega arith) in
      (
        t',
        unfold fire fire_timer in rw (timer_after ctx key now secs c, run) refl,
        record { at = λ d' k'. removed d' k' ∙ rw (or_false (bytes_eq k' key)) refl },
      )

  -- On a reliable environment, with a live context, the database of the context open and a key of
  -- 1 to 511 bytes: The timer of EXPIRE deletes the key when it fires, whatever was written
  -- since, and touches no other key.
  pub fire-expire :
      (ctx : Context) (key : Bytes) (now secs : ℕ) (c : Client l) (d : ℕ) (t : l.Env)
      → IsReady l ctx key c d
      → Differs l t d key
          (err not_found)
          (fire l c.next_timer (record (expire now ctx key secs c) { env = t })).env
  fire-expire ctx key now secs c d t ready =
      let (t', run, differs) = fired ctx key now secs c d t ready in
      subst (λ (k : Client l). Differs l t d key (err not_found) k.env) (sym run) differs
