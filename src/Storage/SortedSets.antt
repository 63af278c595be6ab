-- ===== src/Storage/SortedSets.antt =====
-- zadd.go, zrange.go and zcount.go. A sorted set is a header of eight bytes, the count, and for each
-- member eight bytes of score, four of length and the member. The walk over the map of ZADD takes its
-- order from the parameter `order`. `sort.Slice` is an insertion sort here: any sort gives the same
-- list as long as no score is a NaN.
pub mod Order
pub mod Format
pub mod Existing
pub mod Scores
pub mod Refine
pub mod Reads
use keyp.Base.{ℕ, zero, suc, ◌+◌, Bool, true, false, not, ◌&&◌, ◌||◌, Option, none, some}
use keyp.Base.{List, [], ◌∷◌, ◌++◌, ltb, ◌==◌, if◌then◌else◌, length, map}
use keyp.Bytes.{Bytes, to_le, has_room, u32_at, u64_at, slice}
use keyp.Int64.{add64, lt64, rounds}
use keyp.Float64.{float_eq, float_lt, float_le}
use keyp.Dict.{Dict, lookup, insert, string_eq}
use keyp.Domain.{Error, Context, context_canceled}
use keyp.Lmdb.{Lmdb, Reply, ok, err, ok_or, on_reply, on_error}
use keyp.Storage.{Client, has_error, ctx_flush, is_empty, is_not_found, sel}
use keyp.Storage.Lists.{has_header, is_selected, clamp_start, clamp_stop}
use keyp.Storage.ListCommands.{answer, answer_of_view, settle}

-- `a < b` on strings.
unfoldable pub bytes_lt : Bytes → Bytes → Bool
bytes_lt x [] = false
bytes_lt [] (b ∷ y) = true
bytes_lt (a ∷ x) (b ∷ y) = ltb a b || (a == b && bytes_lt x y)

pub record ScoredMember : Type 0 where
  pub score : ℕ
  pub member : Bytes

-- The function that `sort.Slice` is given.
abbrev pub before : ScoredMember → ScoredMember → Bool
before x y =
    if float_eq x.score y.score then bytes_lt x.member y.member else float_lt x.score y.score

unfoldable pub sorted_insert : ScoredMember → List ScoredMember → List ScoredMember
sorted_insert x [] = x ∷ []
sorted_insert x (y ∷ ys) =
    let rest = sorted_insert x ys in if before y x then y ∷ rest else x ∷ y ∷ ys

unfoldable pub sort_members : List ScoredMember → List ScoredMember
unfolding sorted_insert
sort_members [] = []
sort_members (x ∷ xs) = sorted_insert x (sort_members xs)

-- The three tests of a member at an offset: its score, its length and its bytes are there.
abbrev pub scored_room : Bytes → ℕ → Bool
scored_room bytes offset =
    has_room bytes offset 8
    && (has_room bytes (offset + 8) 4 && has_room bytes (offset + 12) (u32_at bytes (offset + 8)))

-- The bytes of the member at an offset, and the offset behind it.
abbrev pub scored_member : Bytes → ℕ → Bytes
scored_member bytes offset = slice bytes (offset + 12) (offset + 12 + u32_at bytes (offset + 8))

abbrev pub scored_next : Bytes → ℕ → ℕ
scored_next bytes offset = offset + 12 + u32_at bytes (offset + 8)

-- The loop of `ZAdd` over the stored members.
unfoldable pub scores_loop : ℕ → Bytes → ℕ → Dict Bytes ℕ → Dict Bytes ℕ
scores_loop zero bytes offset found = found
scores_loop (suc n) bytes offset found =
    let rest =
      scores_loop n bytes (scored_next bytes offset)
        (insert (scored_member bytes offset) (u64_at bytes offset) found) in
    if scored_room bytes offset then rest else found

unfoldable pub existing_scores : Reply Bytes → Dict Bytes ℕ
unfolding scores_loop
existing_scores (err e) = []
existing_scores (ok bytes) =
    if has_header bytes then scores_loop (rounds (u64_at bytes 0)) bytes 8 [] else []

-- The appends of one member.
abbrev pub put_scored : Bytes → ScoredMember → Bytes
put_scored bytes x = bytes ++ (to_le 8 x.score ++ (to_le 4 (length x.member) ++ x.member))

unfoldable pub put_all_scored : Bytes → List ScoredMember → Bytes
put_all_scored bytes [] = bytes
put_all_scored bytes (x ∷ xs) = put_all_scored (put_scored bytes x) xs

abbrev pub scored : Bytes × ℕ → ScoredMember
scored (m, score) = record { score = score; member = m }

unfoldable pub zadd_value : (Dict Bytes ℕ → Dict Bytes ℕ) → Reply Bytes → ℕ → Bytes → ℕ × Bytes
unfolding existing_scores sort_members put_all_scored
zadd_value order found score m =
    let existing = existing_scores found in
    let members = sort_members (map scored (order (insert m score existing))) in
    (
      elim (lookup m existing) [ none ↦ 1 | some old ↦ 0 ],
      put_all_scored (to_le 8 (length members)) members,
    )

-- The loop of `ZRange`: a member that does not fit ends it, with what was taken so far.
unfoldable pub zrange_loop : ℕ → ℕ → ℕ → ℕ → Bytes → ℕ → List Bytes → List Bytes
zrange_loop zero i start stop bytes offset taken = taken
zrange_loop (suc n) i start stop bytes offset taken =
    let rest =
      zrange_loop n (i + 1) start stop bytes (scored_next bytes offset)
        (if is_selected start stop i then taken ++ (scored_member bytes offset ∷ []) else taken) in
    if scored_room bytes offset then rest else taken

unfoldable pub zrange_value : Bytes → ℕ → ℕ → List Bytes
unfolding zrange_loop
zrange_value bytes start stop =
    let count = u64_at bytes 0 in
    let low = clamp_start start count in
    let high = clamp_stop stop count in
    let taken = zrange_loop (rounds count) 0 low high bytes 8 [] in
    if not (has_header bytes) || count == 0 then [] else if lt64 high low then [] else taken

-- The loop of `ZCount`.
unfoldable pub zcount_loop : ℕ → ℕ → ℕ → Bytes → ℕ → ℕ → ℕ
zcount_loop zero low high bytes offset count = count
zcount_loop (suc n) low high bytes offset count =
    let score = u64_at bytes offset in
    let inside = float_le low score && float_le score high in
    let rest =
      zcount_loop n low high bytes (scored_next bytes offset)
        (if inside then add64 count 1 else count) in
    if scored_room bytes offset then rest else count

unfoldable pub zcount_value : Bytes → ℕ → ℕ → ℕ
unfolding zcount_loop
zcount_value bytes low high =
    let count = u64_at bytes 0 in
    let counted = zcount_loop (rounds count) low high bytes 8 0 in
    if not (has_header bytes) || count == 0 then 0 else counted

module _ (l : Lmdb) (order : Dict Bytes ℕ → Dict Bytes ℕ) where
  unfoldable pub zadd_txn : ℕ → Bytes → ℕ → Bytes → l.Env → ℕ × Reply l.Env
  unfolding zadd_value
  zadd_txn d key score m t =
      let (added, bytes) = zadd_value order (l.get t d key) score m in (added, l.put t d key bytes)

  unfoldable pub zadd : Context → Bytes → ℕ → Bytes → Client l → Client l × ℕ
  unfolding zadd_txn
  zadd ctx key score m c =
      if has_error (ctx_flush ctx 0)
      then (c, 0)
      else if is_empty key || is_empty m
      then (c, 0)
      else (let (c', d, e) = sel l ctx c in
          let r = l.update 0 (zadd_txn d key score m) c'.env in
          if has_error e then (c', 0) else (settle l c' r, ok_or 0 (answer r)))

module _ (l : Lmdb) where
  unfoldable pub zrange_txn : ℕ → Bytes → ℕ → ℕ → l.Env → List Bytes × Option Error
  unfolding zrange_value
  zrange_txn d key start stop t =
      on_reply (l.get t d key) (λ e. if is_not_found e then ([], none) else ([], some e))
        λ bytes. (zrange_value bytes start stop, none)

  unfoldable pub zrange : Context → Bytes → ℕ → ℕ → Client l → Client l × Reply (List Bytes)
  unfolding zrange_txn
  zrange ctx key start stop c =
      if has_error (ctx_flush ctx 0)
      then (c, err context_canceled)
      else if is_empty key
      then (c, ok [])
      else (let (c', d, e) = sel l ctx c in
          let r = l.view [] (zrange_txn d key start stop) c'.env in
          on_error e (λ fault. (c', err fault)) (c', answer_of_view r))

  unfoldable pub zcount_txn : ℕ → Bytes → ℕ → ℕ → l.Env → ℕ × Option Error
  unfolding zcount_value
  zcount_txn d key low high t =
      on_reply (l.get t d key) (λ e. if is_not_found e then (0, none) else (0, some e))
        λ bytes. (zcount_value bytes low high, none)

  unfoldable pub zcount : Context → Bytes → ℕ → ℕ → Client l → Client l × ℕ
  unfolding zcount_txn
  zcount ctx key low high c =
      if has_error (ctx_flush ctx 0)
      then (c, 0)
      else if is_empty key
      then (c, 0)
      else (let (c', d, e) = sel l ctx c in
          let r = l.view 0 (zcount_txn d key low high) c'.env in
          if has_error e then (c', 0) else (c', ok_or 0 (answer_of_view r)))
