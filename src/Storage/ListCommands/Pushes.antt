-- ===== src/Storage/ListCommands/Pushes.antt =====
-- RPUSH and LPUSH on a reliable environment, against lists of byte strings.
use keyp.Base.{ℕ, ◌+◌, ◌^◌, ◌≡◌, ◌<◌, inl, inr, refl, sym, ◌∙◌, none, some, true, false}
use keyp.Base.{List, ◌∷◌, ◌++◌, length, if◌then◌else◌}
use keyp.Bytes.{Bytes, bytes_eq_refl}
use keyp.Domain.{Context, storage_wrong_type}
use keyp.Lmdb.{Lmdb, Reply, ok, IsReliable, IsStore, same_place}
use keyp.Storage.{Client, is_empty}
unfoldable use keyp.Storage.KeyType.{key_type_of, is_of_kind}
use keyp.Storage.KeyType.{Kind, list, check_key_type}
use mathlib.Core.Path.{subst}
use keyp.Base.{==_refl, Bool-cases}
use keyp.Storage.Lists.{is_list_data}
use keyp.Storage.Lists.{rpush_value, lpush_value}
use keyp.Storage.Lists.Format.{IsStorable}
use keyp.Storage.Lists.Push.{IsStored, rpush_value-IsStored, lpush_value-IsStored}
use keyp.Storage.Lists.Check.{is_list_data-encode_list}
use keyp.Storage.ListCommands.{push, push_txn, rpush, lpush}
use keyp.Storage.ListCommands.Ready.{IsReady, flush, key_not_empty, selected}
use mathlib.Core.List.{reverse}

-- The contents `t'` are `t` but for one place, which reads `reply`.
pub record Differs (l : Lmdb) (t : l.Env) (d : ℕ) (key : Bytes) (reply : Reply Bytes) (t' : l.Env)
    : Type 0 where
  pub at :
      (d' : ℕ) (k' : Bytes)
      → l.get t' d' k' ≡ (if same_place d key d' k' then reply else l.get t d' k')

module _ {l : Lmdb} (s : IsStore l) (r : IsReliable l) where
  -- A value of the right kind, or no value, passes `checkKeyType`.
  check_key_type_passes :
      {ctx : Context} {key : Bytes} {c : Client l} {d : ℕ} (i : ℕ) (kind : Kind)
      → IsReady l ctx key c d
      → key_type_of kind (l.get c.env d key) ≡ (none, none)
      → check_key_type l i ctx key kind c ≡ (c, none)
  unfolding check_key_type
  check_key_type_passes {ctx} {key} {c} {d} i kind ready right =
      rw (flush ready i, key_not_empty ready, selected ready, r.view_runs) (rw right refl)

  -- A value of another kind does not.
  check_key_type_refuses :
      {ctx : Context} {key : Bytes} {c : Client l} {d : ℕ} {bytes : Bytes} (i : ℕ) (kind : Kind)
      → IsReady l ctx key c d
      → l.get c.env d key ≡ ok bytes
      → is_of_kind kind bytes ≡ false
      → check_key_type l i ctx key kind c ≡ (c, some storage_wrong_type)
  unfolding check_key_type key_type_of
  check_key_type_refuses {ctx} {key} {c} {d} i kind ready found wrong =
      rw (flush ready i, key_not_empty ready, selected ready, r.view_runs, found, wrong) refl

  push_lem :
      {ctx : Context} {key : Bytes} {c : Client l} {d : ℕ}
      (value_of : Reply Bytes → List Bytes → ℕ × Bytes) (v : Bytes) (vs : List Bytes) (n : ℕ)
      (bytes : Bytes)
      → IsReady l ctx key c d
      → key_type_of list (l.get c.env d key) ≡ (none, none)
      → value_of (l.get c.env d key) (v ∷ vs) ≡ (n, bytes)
      → (t : l.Env) × (push l value_of ctx key (v ∷ vs) c ≡ (record c { env = t }, n))
        × Differs l c.env d key (ok bytes) t
  unfolding push push_txn
  push_lem {ctx} {key} {c} {d} value_of v vs n bytes ready right computed =
      let (t, put) = r.put_runs c.env d key bytes ready.key_given ready.key_short in
      (
        t,
        rw
            (
              flush ready 0,
              key_not_empty ready,
              check_key_type_passes 1 list ready right,
              selected ready,
              r.update_runs,
              computed,
              put,
            )
            (rw computed refl),
        record { at = s.get-put c.env t d key bytes put },
      )

-- After the operation the list `xs` is stored under the key, and every other place reads as before.
pub record Updates (l : Lmdb) (t : l.Env) (d : ℕ) (key : Bytes) (xs : List Bytes) (t' : l.Env)
    : Type 0 where
  pub stored : IsStored (l.get t' d key) xs
  pub others :
      (d' : ℕ) (k' : Bytes) → same_place d key d' k' ≡ false → l.get t' d' k' ≡ l.get t d' k'

same_place_refl : (d : ℕ) (k : Bytes) → same_place d k d k ≡ true
same_place_refl d k = rw (==_refl d, bytes_eq_refl k) refl

pub Differs-here :
    {l : Lmdb} {t t' : l.Env} {d : ℕ} {key : Bytes} {reply : Reply Bytes}
    → Differs l t d key reply t'
    → l.get t' d key ≡ reply
Differs-here {d = d} {key = key} differs = differs.at d key ∙ rw (same_place_refl d key) refl

pub Differs-Updates :
    {l : Lmdb} {t t' : l.Env} {d : ℕ} {key : Bytes} {reply : Reply Bytes} (xs : List Bytes)
    → Differs l t d key reply t'
    → IsStored reply xs
    → Updates l t d key xs t'
Differs-Updates xs differs h = record {
  stored = subst (λ a. IsStored a xs) (sym (Differs-here differs)) h;
  others = λ d' k' other. differs.at d' k' ∙ rw other refl;
}

key_type-IsStored :
    (found : Reply Bytes) (xs : List Bytes)
    → IsStored found xs
    → IsStorable xs
    → key_type_of list found ≡ (none, none)
unfolding key_type_of is_of_kind
key_type-IsStored found xs (inl e) h = rw (e, is_list_data-encode_list xs h) refl
key_type-IsStored found xs (inr (e, no_items)) h = rw e refl

module _ {l : Lmdb} (s : IsStore l) (r : IsReliable l) where
  -- On a reliable environment, with a live context, the database of the context open and a key of
  -- 1 to 511 bytes: RPUSH appends the values, at least one, to the stored list, creates the key
  -- when it is missing, answers with the new length and touches no other key. The list before is
  -- storable and the new length is below 2 ^ 63.
  pub rpush_refines :
      (ctx : Context) (key : Bytes) (c : Client l) (d : ℕ) (xs : List Bytes) (v : Bytes)
      (vs : List Bytes)
      → IsReady l ctx key c d
      → IsStored (l.get c.env d key) xs
      → IsStorable xs
      → length xs + length (v ∷ vs) < 2 ^ 63
      → (t : l.Env) × (rpush l ctx key (v ∷ vs) c
          ≡ (record c { env = t }, length xs + length (v ∷ vs)))
        × Updates l c.env d key (xs ++ v ∷ vs) t
  unfolding rpush
  rpush_refines ctx key c d xs v vs ready stored h fits =
      let (t, run, differs) =
        push_lem s r rpush_value v vs _ _ ready (key_type-IsStored _ xs stored h)
          (rpush_value-IsStored _ xs (v ∷ vs) stored fits) in
      (t, run, Differs-Updates (xs ++ v ∷ vs) differs (inl refl))

  -- On a reliable environment, with a live context, the database of the context open and a key of
  -- 1 to 511 bytes: LPUSH puts the values, at least one, before the stored list, the last one
  -- first, creates the key when it is missing, answers with the new length and touches no other
  -- key. The list before is storable and the new length is below 2 ^ 63.
  pub lpush_refines :
      (ctx : Context) (key : Bytes) (c : Client l) (d : ℕ) (xs : List Bytes) (v : Bytes)
      (vs : List Bytes)
      → IsReady l ctx key c d
      → IsStored (l.get c.env d key) xs
      → IsStorable xs
      → length xs + length (v ∷ vs) < 2 ^ 63
      → (t : l.Env) × (lpush l ctx key (v ∷ vs) c
          ≡ (record c { env = t }, length xs + length (v ∷ vs)))
        × Updates l c.env d key (reverse (v ∷ vs) ++ xs) t
  unfolding lpush
  lpush_refines ctx key c d xs v vs ready stored h fits =
      let (t, run, differs) =
        push_lem s r lpush_value v vs _ _ ready (key_type-IsStored _ xs stored h)
          (lpush_value-IsStored _ xs (v ∷ vs) stored fits) in
      (t, run, Differs-Updates (reverse (v ∷ vs) ++ xs) differs (inl refl))

  -- On a reliable environment, with a live context, the database of the context open and a key of
  -- 1 to 511 bytes: RPUSH and LPUSH on a value that is no list answer 0 and change nothing.
  pub push_rejects :
      (ctx : Context) (key : Bytes) (c : Client l) (d : ℕ) (bytes : Bytes) (values : List Bytes)
      → IsReady l ctx key c d
      → l.get c.env d key ≡ ok bytes
      → is_list_data bytes ≡ false
      → (rpush l ctx key values c ≡ (c, 0)) × (lpush l ctx key values c ≡ (c, 0))
  unfolding rpush lpush push
  push_rejects ctx key c d bytes values ready found wrong =
      let refused : check_key_type l 1 ctx key list c ≡ (c, some storage_wrong_type) =
        check_key_type_refuses s r 1 list ready found (unfold is_of_kind in wrong) in
      elim (Bool-cases (is_empty values)) [
        | inl nothing ↦ (
          rw (flush ready 0, key_not_empty ready, nothing) refl,
          rw (flush ready 0, key_not_empty ready, nothing) refl,
        )
        | inr some_values ↦ (
          rw (flush ready 0, key_not_empty ready, some_values, refused) refl,
          rw (flush ready 0, key_not_empty ready, some_values, refused) refl,
        )
      ]
