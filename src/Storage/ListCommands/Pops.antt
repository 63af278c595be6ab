-- ===== src/Storage/ListCommands/Pops.antt =====
-- LPOP, RPOP and LSET on a reliable environment, against lists of byte strings.
use keyp.Base.{ℕ, ◌≡◌, ◌<◌, ◌⊎◌, inl, inr, refl, none, some}
use keyp.Base.{List, [], ◌∷◌, ◌++◌, length, Option, arith, set, lt→ltb, le→ltb_false}
use keyp.Bytes.{Bytes}
use keyp.Int64.{ℤ, pos, negsuc, of_ℤ, InRange}
use keyp.Domain.{Context, not_found, key_not_found}
use keyp.Lmdb.{Lmdb, Reply, ok, err, IsReliable, IsStore}
use keyp.Storage.{Client}
use keyp.Storage.Lists.{lpop_value, rpop_value}
use keyp.Storage.Lists.Format.{encode_list, IsStorable}
use keyp.Storage.Lists.Push.{IsStored}
use keyp.Storage.Lists.Pop.{left, lpop_value-encode_list, rpop_value-encode_list}
use keyp.Storage.Lists.Index.{place}
use keyp.Storage.Lists.Assign.{lset_value-encode_list}
use keyp.Storage.ListCommands.{pop, pop_txn, lpop, rpop, lset, lset_txn}
use keyp.Storage.ListCommands.Ready.{IsReady, flush, key_not_empty, selected}
use keyp.Storage.ListCommands.Pushes.{Differs, Updates, Differs-Updates}

-- What a `Get` finds after a value was put or the key deleted.
abbrev reply_of : Option Bytes → Reply Bytes
reply_of none = err not_found
reply_of (some bytes) = ok bytes

left-IsStored : (xs : List Bytes) → IsStored (reply_of (left xs)) xs
left-IsStored [] = inr (refl, refl)
left-IsStored (x ∷ xs) = inl refl

place_cases : (n : ℕ) (z : ℤ) → (place n z < n) ⊎ (place n z ≡ n)
place_cases n (pos i) = ground arith
place_cases n (negsuc i) = ground arith

module _ {l : Lmdb} (s : IsStore l) (r : IsReliable l) where
  pop_lem :
      {ctx : Context} {key : Bytes} {c : Client l} {d : ℕ}
      (take_off : Bytes → Reply (Bytes × Option Bytes)) (bytes item : Bytes) (rest : Option Bytes)
      → IsReady l ctx key c d
      → l.get c.env d key ≡ ok bytes
      → take_off bytes ≡ ok (item, rest)
      → (t : l.Env) × (pop l take_off ctx key c ≡ (record c { env = t }, ok item))
        × Differs l c.env d key (reply_of rest) t
  unfolding pop pop_txn
  pop_lem {ctx} {key} {c} {d} take_off bytes item none ready found taken =
      let (t, del) = r.del_runs c.env d key found in
      (
        t,
        rw (flush ready 0, key_not_empty ready, selected ready, r.update_runs, found, taken, del)
            refl,
        record { at = s.get-del c.env t d key del },
      )
  pop_lem {ctx} {key} {c} {d} take_off bytes item (some rest) ready found taken =
      let (t, put) = r.put_runs c.env d key rest ready.key_given ready.key_short in
      (
        t,
        rw (flush ready 0, key_not_empty ready, selected ready, r.update_runs, found, taken, put)
            refl,
        record { at = s.get-put c.env t d key rest put },
      )

  -- On a reliable environment, with a live context, the database of the context open and a key of
  -- 1 to 511 bytes: LPOP of a stored and storable list that is not empty answers with its first
  -- item and leaves the rest; the key of the last item is deleted, and no other key is touched.
  pub lpop_refines :
      (ctx : Context) (key : Bytes) (c : Client l) (d : ℕ) (x : Bytes) (xs : List Bytes)
      → IsReady l ctx key c d
      → l.get c.env d key ≡ ok (encode_list (x ∷ xs))
      → IsStorable (x ∷ xs)
      → (t : l.Env) × (lpop l ctx key c ≡ (record c { env = t }, ok x)) × Updates l c.env d key xs t
  unfolding lpop
  lpop_refines ctx key c d x xs ready found h =
      let (t, run, differs) =
        pop_lem lpop_value _ _ _ ready found (lpop_value-encode_list x xs h) in
      (t, run, Differs-Updates xs differs (left-IsStored xs))

  -- On a reliable environment, with a live context, the database of the context open and a key of
  -- 1 to 511 bytes: RPOP of a stored and storable list that is not empty answers with its last
  -- item and leaves what is before it; the key of the last item is deleted, and no other key is
  -- touched.
  pub rpop_refines :
      (ctx : Context) (key : Bytes) (c : Client l) (d : ℕ) (xs : List Bytes) (x : Bytes)
      → IsReady l ctx key c d
      → l.get c.env d key ≡ ok (encode_list (xs ++ x ∷ []))
      → IsStorable (xs ++ x ∷ [])
      → (t : l.Env) × (rpop l ctx key c ≡ (record c { env = t }, ok x)) × Updates l c.env d key xs t
  unfolding rpop
  rpop_refines ctx key c d xs x ready found h =
      let (t, run, differs) =
        pop_lem rpop_value _ _ _ ready found (rpop_value-encode_list xs x h) in
      (t, run, Differs-Updates xs differs (left-IsStored xs))

  -- On a reliable environment, with a live context, the database of the context open and a key of
  -- 1 to 511 bytes: LSET of a stored and storable list replaces the item that the index names,
  -- from the end when it is negative, and touches no other key; an int64 index that names none is
  -- answered with the error of a missing key, and nothing changes.
  pub lset_refines :
      (ctx : Context) (key : Bytes) (c : Client l) (d : ℕ) (xs : List Bytes) (z : ℤ) (value : Bytes)
      → IsReady l ctx key c d
      → l.get c.env d key ≡ ok (encode_list xs)
      → IsStorable xs
      → InRange z
      → ((place (length xs) z < length xs)
          × (t : l.Env) × (lset l ctx key (of_ℤ z) value c ≡ (record c { env = t }, none))
          × Updates l c.env d key (set xs (place (length xs) z) value) t)
        ⊎ ((place (length xs) z ≡ length xs)
            × (lset l ctx key (of_ℤ z) value c ≡ (c, some key_not_found)))
  unfolding lset lset_txn
  lset_refines ctx key c d xs z value ready found h hz =
      let n : ℕ = length xs in
      let computed = lset_value-encode_list xs z value h hz in
      elim (place_cases n z) [
        | inl less ↦
            let bytes : Bytes = encode_list (set xs (place n z) value) in
            let (t, put) = r.put_runs c.env d key bytes ready.key_given ready.key_short in
            inl (
              less,
              t,
              rw
                  (
                    flush ready 0,
                    key_not_empty ready,
                    selected ready,
                    r.update_runs,
                    found,
                    computed,
                    lt→ltb _ _ less,
                    put,
                  )
                  refl,
              Differs-Updates _ (record { at = s.get-put c.env t d key bytes put }) (inl refl),
            )
        | inr past ↦ inr (
          past,
          rw
              (
                flush ready 0,
                key_not_empty ready,
                selected ready,
                r.update_runs,
                found,
                computed,
                past,
                le→ltb_false n n (omega arith),
              )
              refl,
        )
      ]
