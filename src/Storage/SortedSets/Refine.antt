-- ===== src/Storage/SortedSets/Refine.antt =====
-- ZADD on a reliable environment, against ascending lists of scored members.
use keyp.Base.{ℕ, ◌^◌, ◌<◌, ◌≡◌, ap, ◌∙◌, false}
use keyp.Base.{List, length}
use keyp.Bytes.{Bytes}
use keyp.Float64.{is_nan}
use keyp.Domain.{Context}
use keyp.Lmdb.{Lmdb, Reply, ok, ok_or, IsStore, IsReliable}
use keyp.Dict.{Dict}
use keyp.Storage.ListCommands.{answer, settle}
use keyp.Storage.{Client}
use keyp.Storage.ListCommands.Ready.{IsReady, flush, key_not_empty, selected}
use keyp.Storage.ListCommands.Pushes.{Differs}
use keyp.Storage.Sets.Refine.{not_empty}
use keyp.Storage.SortedSets.{ScoredMember, zadd, zadd_txn}
use keyp.Storage.SortedSets.Format.{encode_scores}
use keyp.Storage.SortedSets.Order.{score_of}
use keyp.Storage.SortedSets.Existing.{IsSortedSet, IsStoredScores}
use keyp.Storage.SortedSets.Scores.{
  IsScoreWalk, Rescored, new_members, zadd_value-rescored, rescored, rescored-Rescored,
  rescored-IsSortedSet,
}

module _ {l : Lmdb} (s : IsStore l) (r : IsReliable l) where
  -- On a reliable environment, with a live context, the database of the context open and a key of
  -- 1 to 511 bytes: ZADD of a score that is a number gives it to the member, a text of 1 to 2 ^
  -- 32 - 1 bytes, in the stored sorted set of fewer than 2 ^ 63 members, which keeps every other
  -- score, stays in ascending order of score and text and holds no member twice; the answer is 1
  -- for a new member and else 0, and no other key is touched. The walk over the map may show the
  -- members in any order.
  pub zadd_refines :
      (order : Dict Bytes ℕ → Dict Bytes ℕ) (ctx : Context) (key : Bytes) (c : Client l) (d : ℕ)
      (xs : List ScoredMember) (score : ℕ) (m : Bytes)
      → IsScoreWalk order
      → IsReady l ctx key c d
      → IsStoredScores (l.get c.env d key) xs
      → IsSortedSet xs
      → length xs < 2 ^ 63
      → score < 2 ^ 64
      → is_nan score ≡ false
      → 0 < length m
      → length m < 2 ^ 32
      → (t : l.Env) × (xs' : List ScoredMember) × (n : ℕ) × (zadd l order ctx key score m c
          ≡ (record c { env = t }, n))
        × Rescored xs m score xs' n
        × IsSortedSet xs'
        × Differs l c.env d key (ok (encode_scores xs')) t
  unfolding zadd
  zadd_refines order ctx key c d xs score m walk ready stored h small word number given short =
      let xs' : List ScoredMember = rescored order walk m score xs h in
      let (t, put) = r.put_runs c.env d key (encode_scores xs') ready.key_given ready.key_short in
      let n : ℕ = new_members (score_of m xs) in
      let run : zadd_txn l order d key score m c.env ≡ (n, ok t) =
        unfold zadd_txn in
        ap (λ (v : ℕ × Bytes). (v.0, l.put c.env d key v.1))
          (zadd_value-rescored order walk m score xs h _ stored small)
        ∙ ap (λ reply. (n, reply)) put in
      (
        t,
        xs',
        n,
        rw (flush ready 0, key_not_empty ready, not_empty m given, selected ready, r.update_runs)
            (ap (λ (v : ℕ × Reply l.Env). (settle l c v, ok_or 0 (answer v))) run),
        rescored-Rescored order walk m score xs h,
        rescored-IsSortedSet order walk m score xs h word number short,
        record { at = s.get-put c.env t d key (encode_scores xs') put },
      )
