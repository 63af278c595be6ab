-- ===== src/Storage/SortedSets/Reads.antt =====
-- ZRANGE and ZCOUNT on a reliable environment, against ascending lists of scored members.
use keyp.Base.{ℕ, suc, ◌+◌, ◌^◌, ◌<◌, ◌≡◌, refl, sym, ap, ◌∙◌, arith, false, ◌&&◌, ◌==◌}
use keyp.Base.{List, [], ◌∷◌, ◌++◌, map, append_assoc, append-nil, length, All}
use keyp.Base.{if◌then◌else◌, Bool-cases, inl, inr, lt→leb_false, drop-nil, take-nil}
use keyp.Bytes.{Bytes}
use keyp.Int64.{ℤ, of_ℤ, InRange, add64}
use keyp.Float64.{float_le}
use keyp.Domain.{Context}
use keyp.Lmdb.{Lmdb, ok, IsReliable}
use keyp.Storage.{Client}
use keyp.Storage.Lists.Bounds.{within, is_selected_small, select_from_zero, clamped_range}
unfoldable use keyp.Storage.Lists.Bounds.{select, range}
use keyp.Storage.ListCommands.Ready.{IsReady, flush, key_not_empty, selected}
use keyp.Storage.SortedSets.{
  ScoredMember, zrange, zrange_txn, zrange_value, zrange_loop, zcount, zcount_txn, zcount_value,
  zcount_loop,
}
use keyp.Storage.SortedSets.Format.{
  IsScored, IsScoredAt, AreScoredAt, encode_scores, header-encode_scores, count-encode_scores,
  scores-encode_scores,
}
use keyp.Storage.SortedSets.Existing.{IsSortedSet, IsStoredScores, present, missing}
use keyp.Storage.SortedSets.Scores.{}

abbrev pub members : List ScoredMember → List Bytes
members xs = map (λ x. x.member) xs

length-members : (xs : List ScoredMember) → length (members xs) ≡ length xs
length-members [] = refl
length-members (x ∷ xs) = ap suc (length-members xs)

zrange_loop-scores :
    (i low high : ℕ) (bytes : Bytes) (offset : ℕ) (xs : List ScoredMember) (taken : List Bytes)
    → AreScoredAt bytes offset xs
    → i + length xs < 2 ^ 63
    → low < 2 ^ 63
    → high < 2 ^ 63
    → zrange_loop (length xs) i low high bytes offset taken
      ≡ taken ++ select i low high (members xs)
unfolding zrange_loop select
zrange_loop-scores i low high bytes offset [] taken h bi bl bh = sym (append-nil taken)
zrange_loop-scores i low high bytes offset (x ∷ xs) taken h bi bl bh =
    let at : IsScoredAt bytes offset x = h.0 in
    let behind : ℕ = offset + 12 + length x.member in
    rw (is_selected_small low high i bl bh (omega arith), at.room, at.member, at.next)
      (elim (Bool-cases (within low high i)) [
        | inl inside ↦ rw inside (
            zrange_loop-scores (i + 1) low high bytes behind xs (taken ++ (x.member ∷ [])) h.1
              (omega arith) bl bh
            ∙ append_assoc taken (x.member ∷ []) _)
        | inr outside ↦
            rw outside
              (zrange_loop-scores (i + 1) low high bytes behind xs taken h.1 (omega arith) bl bh)
      ])

zrange_nonempty :
    (xs : List ScoredMember) (start stop : ℤ)
    → 0 < length xs
    → length xs < 2 ^ 63
    → All IsScored xs
    → InRange start
    → InRange stop
    → zrange_value (encode_scores xs) (of_ℤ start) (of_ℤ stop) ≡ range (members xs) start stop
unfolding zrange_value
zrange_nonempty xs start stop h0 small h hs he =
    let nonzero : (length xs == 0) ≡ false = ground arith in
    let loop : ℕ → ℕ → List Bytes =
      λ low high. zrange_loop (length xs) 0 low high (encode_scores xs) 8 [] in
    rw
      (
        header-encode_scores xs,
        count-encode_scores xs (omega arith),
        nonzero,
        lt→leb_false (2 ^ 63) (length xs) small,
      )
      (rw length-members at (
        clamped_range (λ (ys : List Bytes). ys) loop (members xs) start stop
          (omega (arith, length-members xs)) (omega (arith, length-members xs)) hs he
          (λ low high bl bh.
            zrange_loop-scores 0 low high (encode_scores xs) 8 xs [] (scores-encode_scores xs h)
              (omega arith) bl bh
            ∙ select_from_zero low high (members xs))))

zrange_value-encode_scores :
    (xs : List ScoredMember) (start stop : ℤ)
    → length xs < 2 ^ 63
    → All IsScored xs
    → InRange start
    → InRange stop
    → zrange_value (encode_scores xs) (of_ℤ start) (of_ℤ stop) ≡ range (members xs) start stop
zrange_value-encode_scores [] start stop small h hs he =
    unfold zrange_value range in
    rw (header-encode_scores [], count-encode_scores [] (omega arith), drop-nil, take-nil) refl
zrange_value-encode_scores (x ∷ xs) start stop small h hs he =
    zrange_nonempty (x ∷ xs) start stop (omega arith) small h hs he

-- The number of members whose score lies between the bounds.
unfoldable pub count_between : ℕ → ℕ → List ScoredMember → ℕ
count_between low high [] = 0
count_between low high (x ∷ xs) =
    (if float_le low x.score && float_le x.score high then 1 else 0) + count_between low high xs

zcount_loop-scores :
    (low high : ℕ) (bytes : Bytes) (offset : ℕ) (xs : List ScoredMember) (count : ℕ)
    → AreScoredAt bytes offset xs
    → count + length xs < 2 ^ 63
    → zcount_loop (length xs) low high bytes offset count ≡ count + count_between low high xs
unfolding zcount_loop count_between
zcount_loop-scores low high bytes offset [] count h small = omega arith
zcount_loop-scores low high bytes offset (x ∷ xs) count h small =
    let at : IsScoredAt bytes offset x = h.0 in
    let behind : ℕ = offset + 12 + length x.member in
    let one_more : add64 count 1 ≡ count + 1 = omega arith in
    rw (at.room, at.score, at.next)
      (elim (Bool-cases (float_le low x.score && float_le x.score high)) [
        | inl inside ↦
            rw (inside, one_more)
              (omega
                (arith, zcount_loop-scores low high bytes behind xs (count + 1) h.1 (omega arith)))
        | inr outside ↦
            rw outside
              (omega (arith, zcount_loop-scores low high bytes behind xs count h.1 (omega arith)))
      ])

zcount_value-encode_scores :
    (xs : List ScoredMember) (low high : ℕ)
    → length xs < 2 ^ 63
    → All IsScored xs
    → zcount_value (encode_scores xs) low high ≡ count_between low high xs
zcount_value-encode_scores [] low high small h =
    unfold zcount_value count_between in
    rw (header-encode_scores [], count-encode_scores [] (omega arith)) refl
zcount_value-encode_scores (x ∷ xs) low high small h =
    let n : ℕ = length (x ∷ xs) in
    let nonzero : (n == 0) ≡ false = ground arith in
    unfold zcount_value in
    rw
      (
        header-encode_scores (x ∷ xs),
        count-encode_scores (x ∷ xs) (omega arith),
        nonzero,
        lt→leb_false (2 ^ 63) n small,
      )
      (zcount_loop-scores low high (encode_scores (x ∷ xs)) 8 (x ∷ xs) 0
          (scores-encode_scores (x ∷ xs) h) (omega arith)
        ∙ omega arith)

module _ {l : Lmdb} (r : IsReliable l) where
  zrange_refines :
      (ctx : Context) (key : Bytes) (c : Client l) (d : ℕ) (xs : List ScoredMember) (start stop : ℤ)
      → IsReady l ctx key c d
      → IsStoredScores (l.get c.env d key) xs
      → IsSortedSet xs
      → length xs < 2 ^ 63
      → InRange start
      → InRange stop
      → zrange l ctx key (of_ℤ start) (of_ℤ stop) c ≡ (c, ok (range (members xs) start stop))
  unfolding zrange zrange_txn
  zrange_refines ctx key c d xs start stop ready (present found) h small hs he =
      rw
        (
          flush ready 0,
          key_not_empty ready,
          selected ready,
          r.view_runs,
          found,
          zrange_value-encode_scores xs start stop small h.items hs he,
        )
        refl
  zrange_refines ctx key c d xs start stop ready (missing found no_members) h small hs he =
      rw (flush ready 0, key_not_empty ready, selected ready, r.view_runs, found, no_members)
        (unfold range in rw (drop-nil, take-nil) refl)

  zcount_refines :
      (ctx : Context) (key : Bytes) (c : Client l) (d : ℕ) (xs : List ScoredMember) (low high : ℕ)
      → IsReady l ctx key c d
      → IsStoredScores (l.get c.env d key) xs
      → IsSortedSet xs
      → length xs < 2 ^ 63
      → zcount l ctx key low high c ≡ (c, count_between low high xs)
  unfolding zcount zcount_txn count_between
  zcount_refines ctx key c d xs low high ready (present found) h small =
      rw
        (
          flush ready 0,
          key_not_empty ready,
          selected ready,
          r.view_runs,
          found,
          zcount_value-encode_scores xs low high small h.items,
        )
        refl
  zcount_refines ctx key c d xs low high ready (missing found no_members) h small =
      rw (flush ready 0, key_not_empty ready, selected ready, r.view_runs, found, no_members) refl

  -- On a reliable environment, with a live context, the database of the context open and a key of
  -- 1 to 511 bytes: ZRANGE answers with the members, in ascending order, of the part of the
  -- stored sorted set, of fewer than 2 ^ 63 members, that its two int64 bounds name, and ZCOUNT
  -- with the number of members whose score lies between its two bounds; a missing key is the
  -- empty set, and nothing changes.
  pub scores_refine :
      (ctx : Context) (key : Bytes) (c : Client l) (d : ℕ) (xs : List ScoredMember) (start stop : ℤ)
      (low high : ℕ)
      → IsReady l ctx key c d
      → IsStoredScores (l.get c.env d key) xs
      → IsSortedSet xs
      → length xs < 2 ^ 63
      → InRange start
      → InRange stop
      → (zrange l ctx key (of_ℤ start) (of_ℤ stop) c ≡ (c, ok (range (members xs) start stop)))
        × (zcount l ctx key low high c ≡ (c, count_between low high xs))
  scores_refine ctx key c d xs start stop low high ready stored h small hs he = (
    zrange_refines ctx key c d xs start stop ready stored h small hs he,
    zcount_refines ctx key c d xs low high ready stored h small,
  )
