-- ===== src/Examples/Members.antt =====
-- Runs of the set operations.
use keyp.Base.{ℕ, ◌≡◌, refl, arith, inl, List, [], ◌∷◌}
use keyp.Bytes.{Bytes, codes}
unfoldable use keyp.Bytes.{bytes_eq}
use keyp.Lmdb.{ok}
use keyp.Lmdb.Memory.{memory, Contents, memory-IsStore, memory-IsReliable}
use keyp.Storage.ListCommands.Pushes.{Updates}
use keyp.Storage.Sets.{sadd, smembers, sismember}
unfoldable use keyp.Storage.Sets.{member}
use keyp.Storage.Sets.Members.{IsDistinct, IsWalk}
use keyp.Storage.Sets.Refine.{Added, sadd_refines, membership_refines}
use keyp.Examples.{ctx, key, two, contents, holding, ready, stored_two, two-IsStorable}
use mathlib.Core.List.Permᴰ as Permᴰ

two-IsDistinct : IsDistinct two
unfolding member bytes_eq
two-IsDistinct = (refl, (refl, tt))

same-IsWalk : IsWalk (λ xs. xs)
same-IsWalk = record { shows = λ xs. Permᴰ.refl xs }

sadd_refines_example :
    (t : Contents) × (ms' : List Bytes) × (n : ℕ) × (sadd memory
        (λ xs. xs)
        ctx
        key
        (codes "d" ∷ codes "a" ∷ [])
        (holding contents)
      ≡ (holding t, n))
    × Added two (codes "d" ∷ codes "a" ∷ []) ms' n
    × Updates memory contents 1 key ms' t
sadd_refines_example =
    sadd_refines memory-IsStore memory-IsReliable (λ xs. xs) ctx key (holding contents) 1 two
      (codes "d") (codes "a" ∷ []) same-IsWalk (ready contents) (inl stored_two) two-IsStorable
      two-IsDistinct

membership_refines_example :
    (sismember memory ctx key (codes "bc") (holding contents)
      ≡ (holding contents, member (codes "bc") two))
    × (smembers memory ctx key (holding contents) ≡ (holding contents, ok two))
membership_refines_example =
    membership_refines memory-IsReliable ctx key (codes "bc") (holding contents) 1 two
      (ready contents) (inl stored_two) two-IsStorable (omega arith)
