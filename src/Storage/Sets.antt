-- ===== src/Storage/Sets.antt =====
-- sadd.go, srem.go, smembers.go and sismember.go. A set is stored as a list of its members is, in the
-- order in which Go walks the map `existingMembers`: that order is the parameter `order`.
pub mod Members
pub mod Refine
pub mod Removal
use keyp.Base.{ℕ, zero, suc, ◌+◌, Bool, true, false, not, ◌||◌, Option, none, some}
use keyp.Base.{List, [], ◌∷◌, ◌++◌, if◌then◌else◌, length, ◌==◌}
use keyp.Bytes.{Bytes, bytes_eq, to_le, has_room, u32_at, u64_at, slice}
use keyp.Int64.{rounds}
use keyp.Domain.{Error, Context, key_not_found}
use keyp.Lmdb.{Lmdb, Reply, ok, err, ok_or, error_of, on_reply, on_error}
use keyp.Storage.{Client, has_error, ctx_flush, is_empty, sel}
use keyp.Storage.Lists.{has_header, put_items}
use keyp.Storage.ListCommands.{answer, answer_of_view, settle}

-- `existingMembers[k]`, for a map from the members to `true` that is kept as the list of its keys.
unfoldable pub member : Bytes → List Bytes → Bool
member k [] = false
member k (j ∷ js) = bytes_eq k j || member k js

-- `existingMembers[k] = true`
unfoldable pub add_member : List Bytes → Bytes → List Bytes
unfolding member
add_member ms k = if member k ms then ms else ms ++ (k ∷ [])

-- `delete(existingMembers, k)`
unfoldable pub delete_member : Bytes → List Bytes → List Bytes
delete_member k [] = []
delete_member k (j ∷ js) = let rest = delete_member k js in if bytes_eq k j then rest else j ∷ rest

-- The loop of `SAdd` and `SRem` over the stored members; it stops at the first that does not fit.
unfoldable pub members_loop : ℕ → Bytes → ℕ → List Bytes → List Bytes
members_loop zero bytes offset found = found
members_loop (suc n) bytes offset found =
    let len = u32_at bytes offset in
    let rest =
      members_loop n bytes (offset + 4 + len)
        (add_member found (slice bytes (offset + 4) (offset + 4 + len))) in
    if not (has_room bytes offset 4) || not (has_room bytes (offset + 4) len) then found else rest

unfoldable pub existing_members : Reply Bytes → List Bytes
existing_members (err e) = []
existing_members (ok bytes) =
    if has_header bytes then members_loop (rounds (u64_at bytes 0)) bytes 8 [] else []

-- `for _, member := range members` of `SAdd`: how many are new, and the members then.
unfoldable pub add_all : List Bytes → ℕ → List Bytes → ℕ × List Bytes
add_all found added [] = (added, found)
add_all found added (m ∷ ms) =
    add_all (add_member found m) (if member m found then added else added + 1) ms

-- `for _, member := range members` of `SRem`: how many of them exist, repetitions included.
unfoldable pub count_existing : List Bytes → List Bytes → ℕ
count_existing found [] = 0
count_existing found (m ∷ ms) = (if member m found then 1 else 0) + count_existing found ms

-- The members that are left: those of `membersToRemove` are deleted one by one.
unfoldable pub delete_all : List Bytes → List Bytes → List Bytes
delete_all found [] = found
delete_all found (m ∷ ms) = delete_all (if member m found then delete_member m found else found) ms

module _ (order : List Bytes → List Bytes) where
  -- The new value: the count, and the members as the walk over the map gives them.
  unfoldable pub set_value : List Bytes → Bytes
  set_value ms = put_items (to_le 8 (length ms)) (order ms)

  unfoldable pub sadd_value : Reply Bytes → List Bytes → ℕ × Bytes
  sadd_value found members =
      let (added, all) = add_all (existing_members found) 0 members in (added, set_value all)

  -- `none` where the transaction changes nothing, `some none` where it deletes the key.
  unfoldable pub srem_value : Bytes → List Bytes → ℕ × Option (Option Bytes)
  srem_value bytes members =
      let existing = existing_members (ok bytes) in
      let removed = count_existing existing members in
      let remaining = delete_all existing members in
      if not (has_header bytes) || removed == 0
      then (0, none)
      else (removed, some (if is_empty remaining then none else some (set_value remaining)))

-- The loop of `SMembers`, which fails at a member that does not fit.
unfoldable pub smembers_loop : ℕ → Bytes → ℕ → List Bytes → Reply (List Bytes)
smembers_loop zero bytes offset found = ok found
smembers_loop (suc n) bytes offset found =
    let len = u32_at bytes offset in
    let rest =
      smembers_loop n bytes (offset + 4 + len)
        (found ++ (slice bytes (offset + 4) (offset + 4 + len) ∷ [])) in
    if not (has_room bytes offset 4) || not (has_room bytes (offset + 4) len)
    then err key_not_found
    else rest

unfoldable pub smembers_value : Bytes → Reply (List Bytes)
smembers_value bytes =
    if has_header bytes then smembers_loop (rounds (u64_at bytes 0)) bytes 8 [] else ok []

-- The loop of `SIsMember`.
unfoldable pub sismember_loop : ℕ → Bytes → ℕ → Bytes → Bool
sismember_loop zero bytes offset m = false
sismember_loop (suc n) bytes offset m =
    let len = u32_at bytes offset in
    let rest = sismember_loop n bytes (offset + 4 + len) m in
    if not (has_room bytes offset 4) || not (has_room bytes (offset + 4) len)
    then false
    else if bytes_eq (slice bytes (offset + 4) (offset + 4 + len)) m
    then true
    else rest

unfoldable pub sismember_value : Bytes → Bytes → Bool
sismember_value bytes m =
    if has_header bytes then sismember_loop (rounds (u64_at bytes 0)) bytes 8 m else false

module _ (l : Lmdb) (order : List Bytes → List Bytes) where
  unfoldable pub sadd_txn : ℕ → Bytes → List Bytes → l.Env → ℕ × Reply l.Env
  sadd_txn d key members t =
      let (added, bytes) = sadd_value order (l.get t d key) members in (added, l.put t d key bytes)

  unfoldable pub sadd : Context → Bytes → List Bytes → Client l → Client l × ℕ
  sadd ctx key members c =
      if has_error (ctx_flush ctx 0)
      then (c, 0)
      else if is_empty key || is_empty members
      then (c, 0)
      else (let (c', d, e) = sel l ctx c in
          let r = l.update 0 (sadd_txn d key members) c'.env in
          if has_error e then (c', 0) else (settle l c' r, ok_or 0 (answer r)))

  abbrev write_back : ℕ → Bytes → Option (Option Bytes) → l.Env → Reply l.Env
  write_back d key none t = ok t
  write_back d key (some none) t = l.del t d key
  write_back d key (some (some bytes)) t = l.put t d key bytes

  unfoldable pub srem_txn : ℕ → Bytes → List Bytes → l.Env → ℕ × Reply l.Env
  srem_txn d key members t =
      on_reply (l.get t d key) (λ e. (0, ok t))
        λ bytes.
          let (removed, change) = srem_value order bytes members in
          (removed, write_back d key change t)

  unfoldable pub srem : Context → Bytes → List Bytes → Client l → Client l × ℕ
  srem ctx key members c =
      if has_error (ctx_flush ctx 0)
      then (c, 0)
      else if is_empty key || is_empty members
      then (c, 0)
      else (let (c', d, e) = sel l ctx c in
          let r = l.update 0 (srem_txn d key members) c'.env in
          if has_error e then (c', 0) else (settle l c' r, ok_or 0 (answer r)))

module _ (l : Lmdb) where
  unfoldable pub smembers_txn : ℕ → Bytes → l.Env → List Bytes × Option Error
  smembers_txn d key t =
      on_reply (l.get t d key) (λ e. ([], none))
        λ bytes. let found = smembers_value bytes in (ok_or [] found, error_of found)

  unfoldable pub smembers : Context → Bytes → Client l → Client l × Reply (List Bytes)
  smembers ctx key c =
      on_error (ctx_flush ctx 0) (λ stopped. (c, err stopped))
        (if is_empty key
          then (c, ok [])
          else (let (c', d, e) = sel l ctx c in
              let r = l.view [] (smembers_txn d key) c'.env in
              if has_error e then (c', ok []) else (c', answer_of_view r)))

  unfoldable pub sismember_txn : ℕ → Bytes → Bytes → l.Env → Bool × Option Error
  sismember_txn d key m t =
      on_reply (l.get t d key) (λ e. (false, none)) λ bytes. (sismember_value bytes m, none)

  unfoldable pub sismember : Context → Bytes → Bytes → Client l → Client l × Bool
  sismember ctx key m c =
      if has_error (ctx_flush ctx 0)
      then (c, false)
      else if is_empty key || is_empty m
      then (c, false)
      else (let (c', d, e) = sel l ctx c in
          let r = l.view false (sismember_txn d key m) c'.env in
          if has_error e then (c', false) else (c', ok_or false (answer_of_view r)))
