-- ===== src/Storage/Strings/Refine.antt =====
-- GET, SET, APPEND, EXISTS and DEL on a reliable environment.
use keyp.Base.{ℕ, ◌≡◌, ◌⊎◌, inl, inr, refl, true, false}
use keyp.Base.{[], ◌++◌, none, length}
use keyp.Bytes.{Bytes}
use keyp.Domain.{Context, not_found, key_not_found}
use keyp.Lmdb.{Lmdb, Reply, ok, err, IsStore, IsReliable}
use keyp.Storage.{Client}
use keyp.Storage.Strings.{get, get_txn, set, set_txn, append, append_txn, exists, exists_txn}
use keyp.Storage.ListCommands.Ready.{IsReady, flush, key_not_empty, selected}
use keyp.Storage.ListCommands.Pushes.{Differs}

-- GET's answer for what LMDB finds.
abbrev pub answer_for : Reply Bytes → Reply Bytes
answer_for (ok bytes) = ok bytes
answer_for (err e) = err key_not_found

module _ {l : Lmdb} (r : IsReliable l) where
  -- GET answers with the stored value, or the error of a missing key, and changes nothing.
  pub get_refines :
      (ctx : Context) (key : Bytes) (c : Client l) (d : ℕ)
      → IsReady l ctx key c d
      → get l ctx key c ≡ (c, answer_for (l.get c.env d key))
  unfolding get get_txn
  get_refines ctx key c d ready = elim (r.get_runs c.env d key ready.key_given ready.key_short) [
    | inl (bytes, found) ↦
        rw (selected ready, flush ready 0, r.view_runs, flush ready 1, found) refl
    | inr missing ↦ rw (selected ready, flush ready 0, r.view_runs, flush ready 1, missing) refl
  ]

  -- On a reliable environment, with a live context, the database of the context open and a key of
  -- 1 to 511 bytes: EXISTS tells whether GET would find a value, and changes nothing.
  pub exists_refines :
      (ctx : Context) (key : Bytes) (c : Client l) (d : ℕ)
      → IsReady l ctx key c d
      → ((bytes : Bytes) × (l.get c.env d key ≡ ok bytes) × (exists l ctx key c ≡ (c, true)))
        ⊎ ((l.get c.env d key ≡ err not_found) × (exists l ctx key c ≡ (c, false)))
  unfolding exists exists_txn
  exists_refines ctx key c d ready = elim (r.get_runs c.env d key ready.key_given ready.key_short) [
    | inl (bytes, found) ↦ inl (
      bytes,
      found,
      rw (flush ready 0, key_not_empty ready, selected ready, r.view_runs, found) refl,
    )
    | inr missing ↦ inr (
      missing,
      rw (flush ready 0, key_not_empty ready, selected ready, r.view_runs, missing) refl,
    )
  ]

module _ {l : Lmdb} (s : IsStore l) (r : IsReliable l) where
  -- On a reliable environment, with a live context, the database of the context open and a key of
  -- 1 to 511 bytes: SET stores the value, whatever was there, and touches no other key.
  pub set_refines :
      (ctx : Context) (key val : Bytes) (c : Client l) (d : ℕ)
      → IsReady l ctx key c d
      → (t : l.Env) × (set l ctx key val c ≡ (record c { env = t }, none))
        × Differs l c.env d key (ok val) t
  unfolding set set_txn
  set_refines ctx key val c d ready =
      let (t, put) = r.put_runs c.env d key val ready.key_given ready.key_short in
      (
        t,
        rw (selected ready, flush ready 0, r.update_runs, flush ready 1, put) refl,
        record { at = s.get-put c.env t d key val put },
      )

  -- On a reliable environment, with a live context, the database of the context open and a key of
  -- 1 to 511 bytes: APPEND stores the old value, empty for a missing key, with the new one behind
  -- it, answers with the length, and touches no other key.
  pub append_refines :
      (ctx : Context) (key old value : Bytes) (c : Client l) (d : ℕ)
      → IsReady l ctx key c d
      → (l.get c.env d key ≡ ok old) ⊎ ((l.get c.env d key ≡ err not_found) × (old ≡ []))
      → (t : l.Env) × (append l ctx key value c ≡ (record c { env = t }, length (old ++ value)))
        × Differs l c.env d key (ok (old ++ value)) t
  unfolding append append_txn
  append_refines ctx key old value c d ready (inl found) =
      let (t, put) = r.put_runs c.env d key (old ++ value) ready.key_given ready.key_short in
      (
        t,
        rw (flush ready 0, key_not_empty ready, selected ready, r.update_runs, found, put) refl,
        record { at = s.get-put c.env t d key (old ++ value) put },
      )
  append_refines ctx key old value c d ready (inr (missing, nothing)) =
      let (t, put) = r.put_runs c.env d key value ready.key_given ready.key_short in
      rw nothing (
        t,
        rw (flush ready 0, key_not_empty ready, selected ready, r.update_runs, missing, put) refl,
        record { at = s.get-put c.env t d key value put },
      )
