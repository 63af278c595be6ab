-- ===== src/Storage/Sets/Refine.antt =====
-- SADD, SISMEMBER and SMEMBERS on a reliable environment, against lists without repetitions.
use keyp.Base.{ℕ, ◌+◌, ◌^◌, ◌<◌, ◌≡◌, refl, sym, ap, ◌∙◌, arith, false, ◌||◌, inl, inr}
use keyp.Base.{List, [], ◌∷◌, ◌++◌, append_assoc, append-nil, length, lt→leb_false}
use keyp.Bytes.{Bytes, to_le}
use mathlib.Core.List.Permᴰ as Permᴰ
use keyp.Domain.{Context}
use keyp.Lmdb.{Lmdb, Reply, ok, IsStore, IsReliable}
use keyp.Storage.{Client, is_empty}
use keyp.Storage.Lists.Format.{
  encode_list, items_bytes, IsStorable, IsItemAt, AreItemsAt, put_items-items_bytes,
}
use keyp.Storage.Lists.Format.{header-encode_list, count-encode_list, items-encode_list}
use keyp.Storage.Lists.Push.{IsStored}
use keyp.Storage.ListCommands.Ready.{IsReady, flush, key_not_empty, selected}
use keyp.Storage.ListCommands.Pushes.{Updates, Differs-Updates}
use keyp.Storage.Sets.{
  member, add_member, members_loop, existing_members, add_all, set_value, sadd_value, sadd,
  sadd_txn,
}
use keyp.Storage.Sets.{
  smembers_loop, smembers_value, smembers, smembers_txn, sismember_loop, sismember_value, sismember,
  sismember_txn,
}
use keyp.Storage.Sets.Members.{
  bytes_eq_comm, IsDistinct, IsDistinct-middle, IsWalk, member-perm, length-perm, IsDistinct-perm,
  add_all-Adds,
}

members_loop-items :
    (bytes : Bytes) (offset : ℕ) (found xs : List Bytes)
    → AreItemsAt bytes offset xs
    → IsDistinct (found ++ xs)
    → members_loop (length xs) bytes offset found ≡ found ++ xs
unfolding members_loop add_member
members_loop-items bytes offset found [] h d = sym (append-nil found)
members_loop-items bytes offset found (x ∷ xs) h d =
    let at : IsItemAt bytes offset x = h.0 in
    let new : member x found ≡ false = IsDistinct-middle found x xs d in
    let regroup : (found ++ x ∷ []) ++ xs ≡ found ++ x ∷ xs = append_assoc found (x ∷ []) xs in
    rw (at.item_length, at.room_for_length, at.room_for_item, at.item_bytes, new)
      (members_loop-items bytes (offset + 4 + length x) (found ++ x ∷ []) xs h.1 (rw regroup d)
        ∙ regroup)

smembers_loop-items :
    (bytes : Bytes) (offset : ℕ) (found xs : List Bytes)
    → AreItemsAt bytes offset xs
    → smembers_loop (length xs) bytes offset found ≡ ok (found ++ xs)
unfolding smembers_loop
smembers_loop-items bytes offset found [] h = ap ok (sym (append-nil found))
smembers_loop-items bytes offset found (x ∷ xs) h =
    let at : IsItemAt bytes offset x = h.0 in
    rw (at.item_length, at.room_for_length, at.room_for_item, at.item_bytes)
      (smembers_loop-items bytes (offset + 4 + length x) (found ++ x ∷ []) xs h.1
        ∙ ap ok (append_assoc found (x ∷ []) xs))

sismember_loop-items :
    (bytes : Bytes) (offset : ℕ) (m : Bytes) (xs : List Bytes)
    → AreItemsAt bytes offset xs
    → sismember_loop (length xs) bytes offset m ≡ member m xs
unfolding sismember_loop member
sismember_loop-items bytes offset m [] h = refl
sismember_loop-items bytes offset m (x ∷ xs) h =
    let at : IsItemAt bytes offset x = h.0 in
    rw
      (
        at.item_length,
        at.room_for_length,
        at.room_for_item,
        at.item_bytes,
        bytes_eq_comm x m,
        sismember_loop-items bytes (offset + 4 + length x) m xs h.1,
      )
      (ground arith)

pub existing_members-IsStored :
    (found : Reply Bytes) (ms : List Bytes)
    → IsStored found ms
    → IsStorable ms
    → IsDistinct ms
    → existing_members found ≡ ms
unfolding existing_members
existing_members-IsStored found ms (inl e) h d =
    rw
      (
        e,
        header-encode_list ms,
        count-encode_list ms (omega (arith, h.count)),
        lt→leb_false (2 ^ 63) (length ms) h.count,
      )
      (members_loop-items (encode_list ms) 8 [] ms (items-encode_list ms h.items) d)
existing_members-IsStored found ms (inr (e, no_items)) h d = rw (e, no_items) refl

pub set_value-encode_list :
    (order : List Bytes → List Bytes) (ms : List Bytes)
    → IsWalk order
    → set_value order ms ≡ encode_list (order ms)
unfolding set_value encode_list
set_value-encode_list order ms walk =
    put_items-items_bytes _ (order ms)
    ∙ ap (λ n. to_le 8 n ++ items_bytes (order ms)) (sym (length-perm (walk.shows ms)))

pub not_empty : (m : Bytes) → 0 < length m → is_empty m ≡ false
not_empty [] h = absurd (omega arith)
not_empty (b ∷ m) h = refl

-- What SADD makes of the stored members `ms`: `ms'` has those and the given ones, none twice, and `n`
-- of them are new.
pub record Added (ms members ms' : List Bytes) (n : ℕ) : Type 0 where
  pub same_members : (k : Bytes) → member k ms' ≡ (member k ms || member k members)
  pub counted : length ms' ≡ length ms + n
  pub distinct : IsDistinct ms'

sadd_value-Added :
    (order : List Bytes → List Bytes) (ms members : List Bytes)
    → IsWalk order
    → IsDistinct ms
    → Added ms members (order (add_all ms 0 members).1) (add_all ms 0 members).0
sadd_value-Added order ms members walk d =
    let all : List Bytes = (add_all ms 0 members).1 in
    let adds = add_all-Adds ms members 0 d in
    record {
      same_members = λ k. member-perm (walk.shows all) k ∙ adds.same_members k;
      counted = omega (arith, length-perm (walk.shows all), adds.counted);
      distinct = IsDistinct-perm (Permᴰ.symm (walk.shows all)) adds.distinct;
    }

module _ {l : Lmdb} (s : IsStore l) (r : IsReliable l) where
  -- On a reliable environment, with a live context, the database of the context open and a key of
  -- 1 to 511 bytes: SADD adds the given members, at least one, to the stored set, a storable list
  -- without repetitions, which keeps its old ones, holds none twice and grows by the number that
  -- is answered; no other key is touched. The walk over the map may show the members in any
  -- order.
  pub sadd_refines :
      (order : List Bytes → List Bytes) (ctx : Context) (key : Bytes) (c : Client l) (d : ℕ)
      (ms : List Bytes) (m : Bytes) (more : List Bytes)
      → IsWalk order
      → IsReady l ctx key c d
      → IsStored (l.get c.env d key) ms
      → IsStorable ms
      → IsDistinct ms
      → (t : l.Env) × (ms' : List Bytes) × (n : ℕ) × (sadd l order ctx key (m ∷ more) c
          ≡ (record c { env = t }, n))
        × Added ms (m ∷ more) ms' n
        × Updates l c.env d key ms' t
  unfolding sadd sadd_txn sadd_value
  sadd_refines order ctx key c d ms m more walk ready stored h distinct =
      let ms' : List Bytes = order (add_all ms 0 (m ∷ more)).1 in
      let (t, put) = r.put_runs c.env d key (encode_list ms') ready.key_given ready.key_short in
      (
        t,
        ms',
        (add_all ms 0 (m ∷ more)).0,
        rw
            (
              flush ready 0,
              key_not_empty ready,
              selected ready,
              r.update_runs,
              existing_members-IsStored _ ms stored h distinct,
              set_value-encode_list order (add_all ms 0 (m ∷ more)).1 walk,
              put,
            )
            (rw (existing_members-IsStored _ ms stored h distinct) refl),
        sadd_value-Added order ms (m ∷ more) walk distinct,
        Differs-Updates ms' (record { at = s.get-put c.env t d key (encode_list ms') put })
            (inl refl),
      )

module _ {l : Lmdb} (r : IsReliable l) where
  -- On a reliable environment, with a live context, the database of the context open and a key of
  -- 1 to 511 bytes: SISMEMBER of a text that is not empty tells whether it is in the stored set,
  -- a storable list, and SMEMBERS answers with the members; a missing key is the empty set, and
  -- nothing changes.
  pub membership_refines :
      (ctx : Context) (key m : Bytes) (c : Client l) (d : ℕ) (ms : List Bytes)
      → IsReady l ctx key c d
      → IsStored (l.get c.env d key) ms
      → IsStorable ms
      → 0 < length m
      → (sismember l ctx key m c ≡ (c, member m ms)) × (smembers l ctx key c ≡ (c, ok ms))
  unfolding sismember sismember_txn sismember_value smembers smembers_txn smembers_value member
  membership_refines ctx key m c d ms ready (inl found) h some_text =
      let count = count-encode_list ms (omega (arith, h.count)) in
      let positive = lt→leb_false (2 ^ 63) (length ms) h.count in
      let items = items-encode_list ms h.items in
      (
        rw
            (
              flush ready 0,
              key_not_empty ready,
              not_empty m some_text,
              selected ready,
              r.view_runs,
              found,
              header-encode_list ms,
              count,
              positive,
              sismember_loop-items (encode_list ms) 8 m ms items,
            )
            refl,
        rw
            (
              flush ready 0,
              key_not_empty ready,
              selected ready,
              r.view_runs,
              found,
              header-encode_list ms,
              count,
              positive,
              smembers_loop-items (encode_list ms) 8 [] ms items,
            )
            refl,
      )
  membership_refines ctx key m c d ms ready (inr (found, no_members)) h some_text = (
    rw
        (
          flush ready 0,
          key_not_empty ready,
          not_empty m some_text,
          selected ready,
          r.view_runs,
          found,
          no_members,
        )
        refl,
    rw (flush ready 0, key_not_empty ready, selected ready, r.view_runs, found, no_members) refl,
  )
