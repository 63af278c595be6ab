-- ===== src/Storage/Counter/Refine.antt =====
-- The counters on a reliable environment: a text is read, changed and written back.
use keyp.Base.{ℕ, ◌≡◌, ◌⊎◌, inl, inr, refl, ap, ◌∙◌, arith}
use keyp.Bytes.{Bytes}
use keyp.Int64.{IsInt64, add64, sub64}
use keyp.Decimal.{format_int64, parse_int64}
use keyp.Decimal.RoundTrip.{parse_int64-format_int64}
use keyp.Domain.{Context, not_found, not_integer}
use keyp.Lmdb.{Lmdb, Reply, ok, err, IsStore, IsReliable}
use keyp.Storage.{Client}
use keyp.Storage.Counter.{integer_of, modify_txn, modify_integer_by, incr_by, decr_by}
use keyp.Storage.ListCommands.Ready.{IsReady, flush, key_not_empty, selected, IsReady-again}
use keyp.Storage.ListCommands.Pushes.{Differs, Differs-here}

-- What a `Get` finds where a counter stands at `w`; no key is 0.
abbrev pub IsCounter : Reply Bytes → ℕ → Type 0
IsCounter found w = (found ≡ ok (format_int64 w)) ⊎ ((found ≡ err not_found) × (w ≡ 0))

module _ {l : Lmdb} (s : IsStore l) (r : IsReliable l) where
  modify_lem :
      {ctx : Context} {key : Bytes} {c : Client l} {d : ℕ} (w delta : ℕ) (operation : ℕ → ℕ → ℕ)
      → IsReady l ctx key c d
      → IsInt64 w
      → IsCounter (l.get c.env d key) w
      → (t : l.Env) × (modify_integer_by l ctx key delta operation c
          ≡ (record c { env = t }, ok (operation w delta)))
        × Differs l c.env d key (ok (format_int64 (operation w delta))) t
  unfolding modify_integer_by modify_txn
  modify_lem {ctx} {key} {c} {d} w delta operation ready word (inl found) =
      let bytes : Bytes = format_int64 (operation w delta) in
      let (t, put) = r.put_runs c.env d key bytes ready.key_given ready.key_short in
      (
        t,
        rw
            (
              flush ready 0,
              key_not_empty ready,
              selected ready,
              r.update_runs,
              found,
              parse_int64-format_int64 w word,
              put,
            )
            refl,
        record { at = s.get-put c.env t d key bytes put },
      )
  modify_lem {ctx} {key} {c} {d} w delta operation ready word (inr (found, zero_word)) =
      let bytes : Bytes = format_int64 (operation 0 delta) in
      let (t, put) = r.put_runs c.env d key bytes ready.key_given ready.key_short in
      rw zero_word (
        t,
        rw (flush ready 0, key_not_empty ready, selected ready, r.update_runs, found, put) refl,
        record { at = s.get-put c.env t d key bytes put },
      )

  -- On a reliable environment, with a live context, the database of the context open and a key of
  -- 1 to 511 bytes: INCRBY adds to the counter that stands at the key, a missing key counting as
  -- 0, and DECRBY subtracts from it, both modulo 2 ^ 64; the answer is the new value, its text is
  -- stored, and no other key is touched.
  pub incr_by_refines :
      (ctx : Context) (key : Bytes) (c : Client l) (d w delta : ℕ)
      → IsReady l ctx key c d
      → IsInt64 w
      → IsCounter (l.get c.env d key) w
      → ((t : l.Env) × (incr_by l ctx key delta c ≡ (record c { env = t }, ok (add64 w delta)))
          × Differs l c.env d key (ok (format_int64 (add64 w delta))) t)
        × ((t : l.Env) × (decr_by l ctx key delta c ≡ (record c { env = t }, ok (sub64 w delta)))
            × Differs l c.env d key (ok (format_int64 (sub64 w delta))) t)
  unfolding incr_by decr_by
  incr_by_refines ctx key c d w delta ready word at = (
    modify_lem w delta (λ current change. add64 current change) ready word at,
    modify_lem w delta (λ current change. sub64 current change) ready word at,
  )

  -- On a reliable environment, with a live context, the database of the context open and a key of
  -- 1 to 511 bytes: DECRBY undoes INCRBY of a counter by the same int64, also where the sum
  -- wrapped around.
  pub decr_by-incr_by :
      (ctx : Context) (key : Bytes) (c : Client l) (d w delta : ℕ)
      → IsReady l ctx key c d
      → IsInt64 w
      → IsInt64 delta
      → IsCounter (l.get c.env d key) w
      → (t : l.Env) × (decr_by l ctx key delta (incr_by l ctx key delta c).0
          ≡ (record c { env = t }, ok w))
        × (l.get t d key ≡ ok (format_int64 w))
  decr_by-incr_by ctx key c d w delta ready word small at =
      let ((t, run, differs), _) = incr_by_refines ctx key c d w delta ready word at in
      let back : sub64 (add64 w delta) delta ≡ w = omega arith in
      let (_, (t', run', differs')) =
        incr_by_refines ctx key (record c { env = t }) d (add64 w delta) delta
          (IsReady-again ready t) (omega arith) (inl (Differs-here differs)) in
      (
        t',
        ap (λ a. decr_by l ctx key delta a.0) run
            ∙ run'
            ∙ ap (λ v. (record c { env = t' }, ok v)) back,
        Differs-here differs' ∙ ap (λ v. ok (format_int64 v)) back,
      )

  -- On a reliable environment, with a live context, the database of the context open and a key of
  -- 1 to 511 bytes: INCRBY and DECRBY on a value that ParseInt refuses answer with the error, and
  -- nothing changes.
  modify_rejects :
      (ctx : Context) (key : Bytes) (c : Client l) (d : ℕ) (bytes : Bytes) (delta : ℕ)
      → IsReady l ctx key c d
      → l.get c.env d key ≡ ok bytes
      → integer_of (parse_int64 bytes) ≡ err not_integer
      → (incr_by l ctx key delta c ≡ (c, err not_integer))
        × (decr_by l ctx key delta c ≡ (c, err not_integer))
  unfolding incr_by decr_by modify_integer_by modify_txn
  modify_rejects ctx key c d bytes delta ready found refused = (
    rw (flush ready 0, key_not_empty ready, selected ready, r.update_runs, found, refused) refl,
    rw (flush ready 0, key_not_empty ready, selected ready, r.update_runs, found, refused) refl,
  )
