-- ===== src/Storage/Expiry/Timers.antt =====
-- Which timers may run: an invariant of the map `client.ttl` and of the timers that setTimeout starts.
use keyp.Base.{ℕ, ◌+◌, ◌%◌, ◌^◌, ◌≡◌, ◌<◌, refl, sym, ap, ◌∙◌, arith, true, false, ◌==◌}
use keyp.Base.{
  Option, Option-cases, none, some, inl, inr, Bool-cases, ==_refl, ==_iff, if◌then◌else◌,
}
use keyp.Bytes.{Bytes, bytes_eq, bytes_eq_iff, bytes_eq_refl}
use keyp.Dict.{Dict, lookup, delete, nat_eq, string_eq}
use keyp.Dict.Laws.{lookup-insert, lookup-delete, found_after_insert, found_after_delete}
use keyp.Domain.{Context, db_of}
use keyp.Lmdb.{Lmdb, same_place}
use keyp.Storage.{Client, Timer, Ttl}
use keyp.Storage.Expiry.{keys_of, stop, cancel_timer, cancel_old, expire, forget, persist}
use keyp.Storage.Expiry.Laws.{entry-insert}
use mathlib.Core.Option.{some_inj}
use mathlib.Core.Path.{subst}

-- A stop adds no timer.
cancel_timer-known :
    (k n : ℕ) (timers : Dict ℕ Timer) (t : Timer)
    → lookup n (cancel_timer k timers) ≡ some t
    → (old : Timer) × (lookup n timers ≡ some old)
unfolding cancel_timer stop
cancel_timer-known k n timers t found = elim (Option-cases (lookup k timers)) [
  | inl missing ↦ (t, rw missing at found)
  | inr (old, there) ↦ elim (found_after_insert {K = ℕ} k n _ t timers (rw there at found)) [
    | inl (same, _) ↦ (old, ap (λ i. lookup i timers) ((==_iff n k).0 same) ∙ there)
    | inr (_, before) ↦ (t, before)
  ]
]

-- A timer that still runs after a stop is not the stopped one.
cancel_timer-running :
    (k n : ℕ) (timers : Dict ℕ Timer) (t : Timer)
    → lookup n (cancel_timer k timers) ≡ some t
    → t.running ≡ true
    → (lookup n timers ≡ some t) × ((n == k) ≡ false)
unfolding cancel_timer stop
cancel_timer-running k n timers t found running = elim (Option-cases (lookup k timers)) [
  | inl missing ↦
      let before : lookup n timers ≡ some t = rw missing at found in
      (
        before,
        elim (Bool-cases (n == k)) [
          | inl same ↦
              let gone : lookup n timers ≡ none =
                ap (λ i. lookup i timers) ((==_iff n k).0 same) ∙ missing in
              absurd (ground (arith, gone, before))
          | inr other ↦ other
        ],
      )
  | inr (old, there) ↦ elim (found_after_insert {K = ℕ} k n _ t timers (rw there at found)) [
    | inl (_, stopped) ↦
        let halted : false ≡ t.running = ap (λ (x : Timer). x.running) stopped in
        absurd (ground (arith, halted, running))
    | inr (other, before) ↦ (before, other)
  ]
]

cancel_old-known :
    (o : Option Ttl) (n : ℕ) (timers : Dict ℕ Timer) (t : Timer)
    → lookup n (cancel_old o timers) ≡ some t
    → (old : Timer) × (lookup n timers ≡ some old)
unfolding cancel_old
cancel_old-known none n timers t found = (t, found)
cancel_old-known (some e) n timers t found = cancel_timer-known e.cancel n timers t found

cancel_old-running :
    (o : Option Ttl) (n : ℕ) (timers : Dict ℕ Timer) (t : Timer)
    → lookup n (cancel_old o timers) ≡ some t
    → t.running ≡ true
    → (lookup n timers ≡ some t) × ((e : Ttl) → o ≡ some e → (n == e.cancel) ≡ false)
unfolding cancel_old
cancel_old-running none n timers t found running =
    (found, λ e there. absurd (ground (arith, there)))
cancel_old-running (some e) n timers t found running =
    let (before, other) = cancel_timer-running e.cancel n timers t found running in
    (before, λ e' there. subst (λ (x : Ttl). (n == x.cancel) ≡ false) (some_inj.0 there) other)

pub same_place-equal : (d d' : ℕ) (k k' : Bytes) → same_place d k d' k' ≡ true → (d ≡ d') × (k ≡ k')
same_place-equal d d' k k' same =
    let there : bytes_eq k' k ≡ true = ground (arith, same) in
    (ground (arith, same), sym ((bytes_eq_iff k' k).0 there))

module _ {l : Lmdb} where
  -- The TTL entry of a key in a database.
  abbrev pub entry_of : Client l → ℕ → Bytes → Option Ttl
  entry_of c db key = lookup key (keys_of db c.ttl)

  -- The entry of its key names the timer.
  pub record IsNamed (c : Client l) (n : ℕ) (t : Timer) : Type 0 where
    pub entry : Ttl
    pub there : entry_of c (db_of t.ctx) t.key ≡ some entry
    pub cancels : (n == entry.cancel) ≡ true

  -- Numbers of timers are not used twice, and a timer that runs is the one that the entry of its key
  -- names, so that the next EXPIRE or PERSIST of the key can stop it.
  pub record IsTimed (c : Client l) : Type 0 where
    pub fresh : (n : ℕ) (t : Timer) → lookup n c.timers ≡ some t → n < c.next_timer
    pub owned : (n : ℕ) (t : Timer) → lookup n c.timers ≡ some t → t.running ≡ true → IsNamed c n t

  -- What happens at another place leaves the entry that names a timer.
  IsNamed-elsewhere :
      (c c' : Client l) (db : ℕ) (key : Bytes) (o : Option Ttl) (n : ℕ) (t : Timer)
      → ((db' : ℕ) (key' : Bytes)
          → entry_of c' db' key' ≡ (if same_place db key db' key' then o else entry_of c db' key'))
      → ((e : Ttl) → entry_of c db key ≡ some e → (n == e.cancel) ≡ false)
      → IsNamed c n t
      → IsNamed c' n t
  IsNamed-elsewhere c c' db key o n t entries other named =
      elim (Bool-cases (same_place db key (db_of t.ctx) t.key)) [
        | inl same ↦
            let (same_db, same_key) = same_place-equal db (db_of t.ctx) key t.key same in
            let here : entry_of c db key ≡ some named.entry =
              ap (λ d. entry_of c d key) same_db
              ∙ ap (λ k. entry_of c (db_of t.ctx) k) same_key
              ∙ named.there in
            let not_it : (n == named.entry.cancel) ≡ false = other named.entry here in
            absurd (ground (arith, not_it, named.cancels))
        | inr elsewhere ↦ record {
          entry = named.entry;
          there = entries (db_of t.ctx) t.key ∙ rw elsewhere named.there;
          cancels = named.cancels;
        }
      ]

  pub expire-IsTimed :
      (now : ℕ) (ctx : Context) (key : Bytes) (secs : ℕ) (c : Client l)
      → IsTimed c
      → IsTimed (expire now ctx key secs c)
  unfolding expire
  expire-IsTimed now ctx key secs c h =
      let c' : Client l = expire now ctx key secs c in
      let db : ℕ = db_of ctx in
      let entries = λ (db' : ℕ) (key' : Bytes).
        entry-insert db db' key key'
          (some (record { expire = (now % 2 ^ 32 + secs) % 2 ^ 32; cancel = c.next_timer })) _ c.ttl
          (λ j. lookup-insert {K = Bytes} key j _ _) in
      record {
        fresh = λ n t found. elim (found_after_insert {K = ℕ} c.next_timer n _ t _ found) [
          | inl (same, _) ↦ ground (arith, same)
          | inr (_, before) ↦
              let (old, was) = cancel_old-known (entry_of c db key) n c.timers t before in
              omega (arith, h.fresh n old was)
        ];
        owned = λ n t found running. elim (found_after_insert {K = ℕ} c.next_timer n _ t _ found) [
          | inl (same, new) ↦
              subst (λ (x : Timer). IsNamed c' n x) new
                (record {
                  entry = record { expire = (now % 2 ^ 32 + secs) % 2 ^ 32; cancel = c.next_timer };
                  there = entries db key ∙ rw (==_refl db, bytes_eq_refl key) refl;
                  cancels = same;
                })
          | inr (_, before) ↦
              let (was, other) =
                cancel_old-running (entry_of c db key) n c.timers t before running in
              IsNamed-elsewhere c c' db key _ n t entries other (h.owned n t was running)
        ];
      }

  forget-IsTimed :
      (o : Option Ttl) (db : ℕ) (key : Bytes) (c : Client l)
      → entry_of c db key ≡ o
      → IsTimed c
      → IsTimed (forget o db key c).0
  unfolding forget
  forget-IsTimed none db key c there h = h
  forget-IsTimed (some old) db key c there h =
      let c' : Client l = (forget (some old) db key c).0 in
      record {
        fresh = λ n t found.
            let (old', was) = cancel_timer-known old.cancel n c.timers t found in
            h.fresh n old' was;
        owned = λ n t found running.
            let (was, other) = cancel_timer-running old.cancel n c.timers t found running in
            IsNamed-elsewhere c c' db key none n t
              (λ db' key'.
                entry-insert db db' key key' none _ c.ttl (λ j. lookup-delete {K = Bytes} key j _))
              (λ e here.
                subst (λ (x : Ttl). (n == x.cancel) ≡ false) (some_inj.0 (sym there ∙ here)) other)
              (h.owned n t was running);
      }

  pub persist-IsTimed :
      (ctx : Context) (key : Bytes) (c : Client l) → IsTimed c → IsTimed (persist ctx key c).0
  unfolding persist
  persist-IsTimed ctx key c h = forget-IsTimed (entry_of c (db_of ctx) key) (db_of ctx) key c refl h

  -- A timer that has fired is forgotten.
  pub delete-IsTimed :
      (n : ℕ) (c : Client l) → IsTimed c → IsTimed (record c { timers = delete n c.timers })
  delete-IsTimed n c h = record {
    fresh = λ k t found. h.fresh k t (found_after_delete {K = ℕ} n k t c.timers found).1;
    owned = λ k t found running.
        let named = h.owned k t (found_after_delete {K = ℕ} n k t c.timers found).1 running in
        record { entry = named.entry; there = named.there; cancels = named.cancels };
  }
