-- ===== src/Examples/Scores.antt =====
-- Runs of the sorted sets, and of reads of any bytes.
use keyp.Base.{ℕ, ◌≡◌, refl, arith, List, [], ◌∷◌}
use keyp.Bytes.{codes}
unfoldable use keyp.Bytes.{bytes_eq}
unfoldable use keyp.Dict.{lookup}
use keyp.Int64.{pos, negsuc, of_ℤ}
use keyp.Lmdb.{ok}
use keyp.Lmdb.Memory.{memory, Contents, memory-IsStore, memory-IsReliable}
unfoldable use keyp.Lmdb.Memory.{found}
use keyp.Storage.ListCommands.Pushes.{Differs}
use keyp.Storage.Lists.Bounds.{range}
use keyp.Storage.SortedSets.{ScoredMember, zadd, zrange, zcount}
use keyp.Storage.SortedSets.Format.{encode_scores}
unfoldable use keyp.Storage.SortedSets.Order.{score_of}
use keyp.Storage.SortedSets.Existing.{IsSortedSet, IsStoredScores, present}
use keyp.Storage.SortedSets.Scores.{IsScoreWalk, Rescored}
use keyp.Storage.SortedSets.Reads.{members, count_between, scores_refine}
use keyp.Storage.SortedSets.Refine.{zadd_refines}
use keyp.Examples.{ctx, key, holding, ready}
use mathlib.Core.List.Permᴰ as Permᴰ

-- The patterns of 1 and 2.
abbrev one_float : ℕ
one_float = 4607182418800017408

abbrev two_float : ℕ
two_float = 4611686018427387904

abbrev ranked : List ScoredMember
ranked =
    record { score = one_float; member = codes "b" }
    ∷ record { score = two_float; member = codes "a" }
    ∷ []

abbrev ranked_contents : Contents
ranked_contents = ((1, key), encode_scores ranked) ∷ []

stored_ranked : IsStoredScores (memory.get ranked_contents 1 key) ranked
unfolding found lookup bytes_eq
stored_ranked = present refl

ranked-IsSortedSet : IsSortedSet ranked
unfolding score_of bytes_eq
ranked-IsSortedSet = record {
  items = (
    record { score = omega arith; member = omega arith },
    (record { score = omega arith; member = omega arith }, tt),
  );
  numbers = (refl, (refl, tt));
  once = (refl, (refl, tt));
  ascending = ((refl, tt), (tt, tt));
}

same-IsScoreWalk : IsScoreWalk (λ d. d)
same-IsScoreWalk = record { shows = λ d. Permᴰ.refl d }

zadd_refines_example :
    (t : Contents) × (xs' : List ScoredMember) × (n : ℕ) × (zadd memory
        (λ d. d)
        ctx
        key
        one_float
        (codes "a")
        (holding ranked_contents)
      ≡ (holding t, n))
    × Rescored ranked (codes "a") one_float xs' n
    × IsSortedSet xs'
    × Differs memory ranked_contents 1 key (ok (encode_scores xs')) t
zadd_refines_example =
    zadd_refines memory-IsStore memory-IsReliable (λ d. d) ctx key (holding ranked_contents) 1
      ranked one_float (codes "a") same-IsScoreWalk (ready ranked_contents) stored_ranked
      ranked-IsSortedSet (omega arith) (omega arith) refl (omega arith) (omega arith)

scores_refine_example :
    (zrange memory ctx key (of_ℤ (pos 0)) (of_ℤ (negsuc 0)) (holding ranked_contents)
      ≡ (holding ranked_contents, ok (range (members ranked) (pos 0) (negsuc 0))))
    × (zcount memory ctx key one_float two_float (holding ranked_contents)
        ≡ (holding ranked_contents, count_between one_float two_float ranked))
scores_refine_example =
    scores_refine memory-IsReliable ctx key (holding ranked_contents) 1 ranked (pos 0) (negsuc 0)
      one_float two_float (ready ranked_contents) stored_ranked ranked-IsSortedSet (omega arith)
      (omega arith) (omega arith)
