-- ===== src/Storage/SortedSets/Scores.antt =====
-- The list of members that ZADD makes of the map `existingMembers` with the new score.
use keyp.Base.{ℕ, suc, ◌+◌, ◌^◌, ◌<◌, ◌≡◌, refl, ap, sym, ◌∙◌, arith, false}
use keyp.Base.{Option, none, some, List, [], ◌∷◌, map, length, All, if◌then◌else◌}
use keyp.Base.{Bool-cases, inl, inr}
use keyp.Bytes.{Bytes, bytes_eq, bytes_eq_iff}
use keyp.Float64.{is_nan}
use keyp.Lmdb.{Reply}
use keyp.Dict.{Dict, lookup, insert, string_eq}
use keyp.Dict.Laws.{lookup-insert}
use keyp.Storage.SortedSets.{ScoredMember, scored, sort_members, zadd_value}
use keyp.Storage.SortedSets.Order.{
  IsNumber, score_of, IsMap, All-perm, score_of-perm, IsMap-perm, sort_members-perm,
  sort_members-IsAscending,
}
use keyp.Storage.SortedSets.Format.{IsScored, encode_scores, put_all_scored-scored_bytes}
use keyp.Storage.Sets.Members.{bytes_eq_comm}
use mathlib.Core.Path.{subst}
use mathlib.Core.List.{Permᴰ}
use mathlib.Core.List.Permᴰ as Permᴰ
use keyp.Storage.SortedSets.Existing.{
  IsSortedSet, IsStoredScores, pair, score_of-scored, scored-pair, existing_scores-IsStoredScores,
}

-- What a write to the map does to the list that is made of it.
insert-IsMap :
    (m : Bytes) (score : ℕ) (d : Dict Bytes ℕ)
    → IsMap (map scored d)
    → IsMap (map scored (insert m score d))
unfolding insert score_of
insert-IsMap m score [] h = (refl, tt)
insert-IsMap m score ((j, w) ∷ d) h = elim (Bool-cases (bytes_eq m j)) [
  | inl same ↦ rw same h
  | inr other ↦ rw other (
    rw (score_of-scored, lookup-insert, bytes_eq_comm j m, other) (sym (score_of-scored j d) ∙ h.0),
    insert-IsMap m score d h.1,
  )
]

insert-All :
    (P : ScoredMember → Type 0) (m : Bytes) (score : ℕ) (d : Dict Bytes ℕ)
    → P (scored (m, score))
    → All P (map scored d)
    → All P (map scored (insert m score d))
unfolding insert
insert-All P m score [] here h = (here, tt)
insert-All P m score ((j, w) ∷ d) here h = elim (Bool-cases (bytes_eq m j)) [
  | inl same ↦
      rw same (subst (λ (k : Bytes). P (scored (k, score))) ((bytes_eq_iff m j).0 same) here, h.1)
  | inr other ↦ rw other (h.0, insert-All P m score d here h.1)
]

-- 1 for a member that is not there yet.
unfoldable pub new_members : Option ℕ → ℕ
new_members none = 1
new_members (some old) = 0

length-insert :
    (m : Bytes) (score : ℕ) (d : Dict Bytes ℕ)
    → length (insert m score d) ≡ length d + new_members (lookup m d)
unfolding insert lookup new_members
length-insert m score [] = refl
length-insert m score ((j, w) ∷ d) = ground (arith, length-insert m score d)

map-perm : {d d' : Dict Bytes ℕ} → Permᴰ d d' → Permᴰ (map scored d) (map scored d')
map-perm Permᴰ.nil = Permᴰ.nil
map-perm (Permᴰ.cons e p) = Permᴰ.cons (ap scored e) (map-perm p)
map-perm (Permᴰ.swap e e') = Permᴰ.swap (ap scored e) (ap scored e')
map-perm (Permᴰ.trans p q) = Permᴰ.trans (map-perm p) (map-perm q)

length-perm : {xs ys : List ScoredMember} → Permᴰ xs ys → length xs ≡ length ys
length-perm Permᴰ.nil = refl
length-perm (Permᴰ.cons e p) = omega (arith, length-perm p)
length-perm (Permᴰ.swap e e') = refl
length-perm (Permᴰ.trans p q) = length-perm p ∙ length-perm q

length-scored : (d : Dict Bytes ℕ) → length (map scored d) ≡ length d
length-scored [] = refl
length-scored (e ∷ d) = ap suc (length-scored d)

-- What `order` may do: the walk over the map shows every entry once.
pub record IsScoreWalk (order : Dict Bytes ℕ → Dict Bytes ℕ) : Type 0 where
  pub shows : (d : Dict Bytes ℕ) → Permᴰ (order d) d

-- What ZADD makes of the sorted set `xs`: the member has the score, every other member keeps its
-- own, and `n` members are new.
pub record Rescored (xs : List ScoredMember) (m : Bytes) (score : ℕ) (xs' : List ScoredMember)
    (n : ℕ) : Type 0 where
  pub scores : (k : Bytes) → score_of k xs' ≡ (if bytes_eq k m then some score else score_of k xs)
  pub answered : n ≡ new_members (score_of m xs)
  pub counted : length xs' ≡ length xs + n

module _ (order : Dict Bytes ℕ → Dict Bytes ℕ) (walk : IsScoreWalk order) (m : Bytes) (score : ℕ)
    (xs : List ScoredMember) (h : IsSortedSet xs) where
  abbrev written : Dict Bytes ℕ
  written = insert m score (map pair xs)

  abbrev pub rescored : List ScoredMember
  rescored = sort_members (map scored (order written))

  rescored-perm : Permᴰ (map scored written) rescored
  rescored-perm =
      Permᴰ.symm (
        Permᴰ.trans (sort_members-perm (map scored (order written)))
          (map-perm (walk.shows written)))

  walked-perm : Permᴰ (map scored written) (map scored (order written))
  walked-perm = Permᴰ.symm (map-perm (walk.shows written))

  written-IsMap : IsMap (map scored written)
  written-IsMap = insert-IsMap m score (map pair xs) (rw scored-pair h.once)

  lookup-pair : (k : Bytes) → lookup k (map pair xs) ≡ score_of k xs
  lookup-pair k = sym (score_of-scored k (map pair xs)) ∙ ap (score_of k) (scored-pair xs)

  pub rescored-Rescored : Rescored xs m score rescored (new_members (score_of m xs))
  rescored-Rescored = record {
    scores = λ k.
        sym (score_of-perm rescored-perm written-IsMap k)
        ∙ score_of-scored k written
        ∙ lookup-insert m k score (map pair xs)
        ∙ rw (lookup-pair k) refl;
    answered = refl;
    counted = omega (
      arith,
      length-perm rescored-perm,
      length-scored written,
      length-insert m score (map pair xs),
      ap new_members (lookup-pair m),
      length-scored (map pair xs),
      ap length (scored-pair xs),
    );
  }

  pub rescored-IsSortedSet :
      score < 2 ^ 64 → is_nan score ≡ false → length m < 2 ^ 32 → IsSortedSet rescored
  rescored-IsSortedSet word number short =
      let numbers = insert-All IsNumber m score (map pair xs) number (rw scored-pair h.numbers) in
      record {
        items = All-perm IsScored rescored-perm (
            insert-All IsScored m score (map pair xs) (record { score = word; member = short })
              (rw scored-pair h.items));
        numbers = All-perm IsNumber rescored-perm numbers;
        once = IsMap-perm rescored-perm written-IsMap;
        ascending =
            sort_members-IsAscending (map scored (order written))
              (All-perm IsNumber walked-perm numbers) (IsMap-perm walked-perm written-IsMap);
      }

  pub zadd_value-rescored :
      (found : Reply Bytes)
      → IsStoredScores found xs
      → length xs < 2 ^ 63
      → zadd_value order found score m ≡ (new_members (score_of m xs), encode_scores rescored)
  unfolding zadd_value encode_scores new_members
  zadd_value-rescored found stored small =
      rw
        (
          existing_scores-IsStoredScores found xs stored small h,
          lookup-pair m,
          put_all_scored-scored_bytes,
        )
        refl
