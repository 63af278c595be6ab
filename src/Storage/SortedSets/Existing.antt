-- ===== src/Storage/SortedSets/Existing.antt =====
-- The map `existingMembers` of zadd.go, which is read from the stored members.
use keyp.Base.{ℕ, ◌+◌, ◌^◌, ◌<◌, ◌≡◌, refl, ap, sym, ◌∙◌, arith}
use keyp.Base.{none, some, List, [], ◌∷◌, ◌++◌, map, length, All}
use keyp.Base.{Bool-cases, inl, inr, append_assoc, append-nil, lt→leb_false}
use keyp.Bytes.{Bytes, bytes_eq}
use keyp.Domain.{not_found}
use keyp.Lmdb.{Reply, ok, err}
use keyp.Dict.{Dict, lookup, insert, string_eq}
use keyp.Dict.Laws.{lookup-insert}
use keyp.Storage.SortedSets.{ScoredMember, scored, scores_loop, existing_scores}
use keyp.Storage.SortedSets.Order.{IsNumber, score_of, IsMap, IsAscending, apart_of_new}
use keyp.Storage.SortedSets.Format.{
  IsScored, IsScoredAt, AreScoredAt, encode_scores, header-encode_scores, count-encode_scores,
  scores-encode_scores,
}
use keyp.Storage.Sets.Members.{bytes_eq_comm}

-- A sorted set as it is stored: a map of members to scores that are numbers, in ascending order.
pub record IsSortedSet (xs : List ScoredMember) : Type 0 where
  pub items : All IsScored xs
  pub numbers : All IsNumber xs
  pub once : IsMap xs
  pub ascending : IsAscending xs

-- What a `Get` finds where the sorted set `xs` is stored; no key is the empty one.
pub data IsStoredScores (found : Reply Bytes) (xs : List ScoredMember) : Type 0 where
  present : found ≡ ok (encode_scores xs) → IsStoredScores found xs
  missing : found ≡ err not_found → xs ≡ [] → IsStoredScores found xs

abbrev pub pair : ScoredMember → Bytes × ℕ
pair x = (x.member, x.score)

pub score_of-scored : (k : Bytes) (d : Dict Bytes ℕ) → score_of k (map scored d) ≡ lookup k d
unfolding score_of lookup
score_of-scored k [] = refl
score_of-scored k ((j, v) ∷ d) = rw (score_of-scored k d) refl

pub scored-pair : (xs : List ScoredMember) → map scored (map pair xs) ≡ xs
scored-pair [] = refl
scored-pair (x ∷ xs) = ap (λ r. x ∷ r) (scored-pair xs)

insert_new :
    (k : Bytes) (v : ℕ) (d : Dict Bytes ℕ) → lookup k d ≡ none → insert k v d ≡ d ++ (k, v) ∷ []
unfolding lookup insert
insert_new k v [] h = refl
insert_new k v ((j, w) ∷ d) h = elim (Bool-cases (bytes_eq k j)) [
  | inl same ↦ absurd (let clash : some w ≡ none = rw same at h in cc)
  | inr other ↦ rw other (ap (λ r. (j, w) ∷ r) (insert_new k v d (rw other at h)))
]

still_new :
    (x : ScoredMember) (found : Dict Bytes ℕ) (xs : List ScoredMember)
    → score_of x.member xs ≡ none
    → All (λ y. lookup y.member found ≡ none) xs
    → All (λ y. lookup y.member (insert x.member x.score found) ≡ none) xs
still_new x found [] h new = tt
still_new x found (y ∷ ys) h new =
    let (apart, rest) = apart_of_new x y ys h in
    (
      rw (lookup-insert, bytes_eq_comm y.member x.member, apart) new.0,
      still_new x found ys rest new.1,
    )

scores_loop-scores :
    (bytes : Bytes) (offset : ℕ) (xs : List ScoredMember) (found : Dict Bytes ℕ)
    → AreScoredAt bytes offset xs
    → IsMap xs
    → All (λ y. lookup y.member found ≡ none) xs
    → scores_loop (length xs) bytes offset found ≡ found ++ map pair xs
unfolding scores_loop
scores_loop-scores bytes offset [] found at h new = sym (append-nil found)
scores_loop-scores bytes offset (x ∷ xs) found at h new =
    let here : IsScoredAt bytes offset x = at.0 in
    rw (here.room, here.score, here.member, here.next)
      (scores_loop-scores bytes (offset + 12 + length x.member) xs (insert x.member x.score found)
          at.1 h.1 (still_new x found xs h.0 new.1)
        ∙ rw (insert_new x.member x.score found new.0)
            (append_assoc found (pair x ∷ []) (map pair xs)))

nothing_found : (xs : List ScoredMember) → All (λ y. lookup {V = ℕ} y.member [] ≡ none) xs
unfolding lookup
nothing_found [] = tt
nothing_found (x ∷ xs) = (refl, nothing_found xs)

pub existing_scores-IsStoredScores :
    (found : Reply Bytes) (xs : List ScoredMember)
    → IsStoredScores found xs
    → length xs < 2 ^ 63
    → IsSortedSet xs
    → existing_scores found ≡ map pair xs
unfolding existing_scores
existing_scores-IsStoredScores found xs (present e) small h =
    rw
      (
        e,
        header-encode_scores xs,
        count-encode_scores xs (omega arith),
        lt→leb_false (2 ^ 63) (length xs) small,
      )
      (scores_loop-scores (encode_scores xs) 8 xs [] (scores-encode_scores xs h.items) h.once
        (nothing_found xs))
existing_scores-IsStoredScores found xs (missing e no_members) small h = rw (e, no_members) refl
