-- ===== src/Storage/SortedSets/Format.antt =====
-- A stored sorted set as the bytes that ZADD builds: the encoding, and what the loops of zadd.go,
-- zrange.go and zcount.go read at each offset.
use keyp.Base.{ℕ, ◌+◌, ◌^◌, ◌<◌, ◌≡◌, refl, sym, ap, ◌∙◌, arith, true}
use keyp.Base.{List, [], ◌∷◌, ◌++◌, append_assoc, append-nil, length, length-append, All, le→leb}
use keyp.Bytes.{Bytes, to_le, has_room, u64_at, length-to_le, u64_at-append}
use mathlib.Core.Path.{subst₂}
use keyp.Storage.Lists.{has_header}
use keyp.Storage.Lists.Format.{IsItemAt, IsItemAt-append, item, length-item}
use keyp.Storage.SortedSets.{
  ScoredMember, scored_room, scored_member, scored_next, put_scored, put_all_scored,
}

-- A member that the format holds.
pub record IsScored (x : ScoredMember) : Type 0 where
  pub score : x.score < 2 ^ 64
  pub member : length x.member < 2 ^ 32

unfoldable pub scored_item : ScoredMember → Bytes
scored_item x = to_le 8 x.score ++ item x.member

unfoldable pub scored_bytes : List ScoredMember → Bytes
scored_bytes [] = []
scored_bytes (x ∷ xs) = scored_item x ++ scored_bytes xs

unfoldable pub encode_scores : List ScoredMember → Bytes
encode_scores xs = to_le 8 (length xs) ++ scored_bytes xs

-- What the loops read at an offset where the member `x` stands.
pub record IsScoredAt (bytes : Bytes) (offset : ℕ) (x : ScoredMember) : Type 0 where
  pub room : scored_room bytes offset ≡ true
  pub score : u64_at bytes offset ≡ x.score
  pub member : scored_member bytes offset ≡ x.member
  pub next : scored_next bytes offset ≡ offset + 12 + length x.member

abbrev pub AreScoredAt : Bytes → ℕ → List ScoredMember → Type 0
AreScoredAt bytes offset [] = Unit
AreScoredAt bytes offset (x ∷ xs) =
    IsScoredAt bytes offset x × AreScoredAt bytes (offset + 12 + length x.member) xs

pub length-scored_item : (x : ScoredMember) → length (scored_item x) ≡ 12 + length x.member
unfolding scored_item
length-scored_item x = omega (
  arith,
  length-append (to_le 8 x.score) (item x.member),
  length-to_le 8 x.score,
  length-item x.member,
)

-- A member's bytes are a score and an item of a list.
IsScoredAt-item :
    (bytes : Bytes) (offset : ℕ) (x : ScoredMember)
    → has_room bytes offset 8 ≡ true
    → u64_at bytes offset ≡ x.score
    → IsItemAt bytes (offset + 8) x.member
    → IsScoredAt bytes offset x
IsScoredAt-item bytes offset x room score at =
    let behind : offset + 8 + 4 ≡ offset + 12 = omega arith in
    record {
      room = rw (room, at.room_for_length, at.item_length, rw behind at at.room_for_item) refl;
      score = score;
      member = rw at.item_length (rw behind at at.item_bytes);
      next = rw at.item_length refl;
    }

IsScoredAt-append :
    (front : Bytes) (x : ScoredMember) (rest : Bytes)
    → IsScored x
    → IsScoredAt (front ++ (scored_item x ++ rest)) (length front) x
unfolding scored_item
IsScoredAt-append front x rest h =
    let score : Bytes = to_le 8 x.score in
    let whole : Bytes = front ++ ((score ++ item x.member) ++ rest) in
    let by_score : whole ≡ front ++ (score ++ (item x.member ++ rest)) =
      ap (λ r. front ++ r) (append_assoc score (item x.member) rest) in
    let by_item : whole ≡ (front ++ score) ++ (item x.member ++ rest) =
      by_score ∙ sym (append_assoc front score (item x.member ++ rest)) in
    let start : length (front ++ score) ≡ length front + 8 =
      omega (arith, length-append front score, length-to_le 8 x.score) in
    let size : length whole ≡ length front + 8 + length (item x.member ++ rest) =
      omega
        (arith, ap length by_item, length-append (front ++ score) (item x.member ++ rest), start) in
    IsScoredAt-item whole (length front) x (unfold has_room in rw size (le→leb _ _ (omega arith)))
      (rw by_score (u64_at-append front x.score (item x.member ++ rest) h.score))
      (subst₂ (λ bytes at. IsItemAt bytes at x.member) (sym by_item) start
        (IsItemAt-append (front ++ score) x.member rest h.member))

AreScoredAt-append :
    (front : Bytes) (xs : List ScoredMember)
    → All IsScored xs
    → AreScoredAt (front ++ scored_bytes xs) (length front) xs
unfolding scored_bytes
AreScoredAt-append front [] h = tt
AreScoredAt-append front (x ∷ xs) h =
    let offset : length (front ++ scored_item x) ≡ length front + 12 + length x.member =
      omega (arith, length-append front (scored_item x), length-scored_item x) in
    (
      IsScoredAt-append front x (scored_bytes xs) h.0,
      subst₂ (λ bytes at. AreScoredAt bytes at xs)
          (append_assoc front (scored_item x) (scored_bytes xs)) offset
          (AreScoredAt-append (front ++ scored_item x) xs h.1),
    )

pub put_all_scored-scored_bytes :
    (front : Bytes) (xs : List ScoredMember) → put_all_scored front xs ≡ front ++ scored_bytes xs
unfolding put_all_scored scored_bytes scored_item item
put_all_scored-scored_bytes front [] = sym (append-nil front)
put_all_scored-scored_bytes front (x ∷ xs) =
    put_all_scored-scored_bytes (put_scored front x) xs ∙ append_assoc front (scored_item x) _

-- What every closure reads first: the header and the count.
pub header-encode_scores : (xs : List ScoredMember) → has_header (encode_scores xs) ≡ true
unfolding encode_scores
header-encode_scores xs = le→leb _ _ (
    omega
      (arith, length-append (to_le 8 (length xs)) (scored_bytes xs), length-to_le 8 (length xs)))

pub count-encode_scores :
    (xs : List ScoredMember) → length xs < 2 ^ 64 → u64_at (encode_scores xs) 0 ≡ length xs
unfolding encode_scores
count-encode_scores xs h = u64_at-append [] (length xs) (scored_bytes xs) h

pub scores-encode_scores :
    (xs : List ScoredMember) → All IsScored xs → AreScoredAt (encode_scores xs) 8 xs
unfolding encode_scores
scores-encode_scores xs h =
    rw (length-to_le 8 (length xs)) at (AreScoredAt-append (to_le 8 (length xs)) xs h)
