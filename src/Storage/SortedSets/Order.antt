-- ===== src/Storage/SortedSets/Order.antt =====
-- The order of `sort.Slice` in zadd.go, and sorting by it: lists of members as maps to scores.
use keyp.Base.{ℕ, ◌≡◌, refl, ap, sym, ◌∙◌, arith, true, false}
use keyp.Base.{Option, none, some, List, [], ◌∷◌, Bool-cases, inl, inr, All, if◌then◌else◌}
use keyp.Bytes.{Bytes, bytes_eq, bytes_eq_iff}
use keyp.Float64.{is_nan}
use keyp.Storage.SortedSets.{bytes_lt, ScoredMember, before, sorted_insert, sort_members}
use keyp.Storage.Sets.Members.{bytes_eq_comm}
use mathlib.Core.Path.{subst, subst₂, ap₂}
use mathlib.Core.List.{Permᴰ}
use mathlib.Core.List.Permᴰ as Permᴰ

bytes_lt-total : (x y : Bytes) → bytes_eq x y ≡ false → bytes_lt y x ≡ false → bytes_lt x y ≡ true
unfolding bytes_lt bytes_eq
bytes_lt-total [] [] apart h = absurd (cc)
bytes_lt-total [] (b ∷ y) apart h = refl
bytes_lt-total (a ∷ x) [] apart h = absurd (cc)
bytes_lt-total (a ∷ x) (b ∷ y) apart h = ground (arith, bytes_lt-total x y)

bytes_lt_trans : (x y z : Bytes) → bytes_lt x y ≡ true → bytes_lt y z ≡ true → bytes_lt x z ≡ true
unfolding bytes_lt
bytes_lt_trans x y [] h k = absurd (cc)
bytes_lt_trans x [] (c ∷ z) h k = absurd (cc)
bytes_lt_trans [] (b ∷ y) (c ∷ z) h k = refl
bytes_lt_trans (a ∷ x) (b ∷ y) (c ∷ z) h k = ground (arith, bytes_lt_trans x y z)

abbrev pub IsNumber : ScoredMember → Type 0
IsNumber x = is_nan x.score ≡ false

before-total :
    (x y : ScoredMember)
    → IsNumber x
    → IsNumber y
    → bytes_eq x.member y.member ≡ false
    → before y x ≡ false
    → before x y ≡ true
before-total x y hx hy apart h =
    rw (hx, hy) (ground (arith, rw (hx, hy) at h, bytes_lt-total x.member y.member apart))

before_trans :
    (x y z : ScoredMember)
    → IsNumber x
    → IsNumber y
    → IsNumber z
    → before x y ≡ true
    → before y z ≡ true
    → before x z ≡ true
before_trans x y z hx hy hz h k =
    rw (hx, hz)
      (ground
        (arith, rw (hx, hy) at h, rw (hy, hz) at k, bytes_lt_trans x.member y.member z.member))

-- The score of a member.
unfoldable pub score_of : Bytes → List ScoredMember → Option ℕ
score_of k [] = none
score_of k (x ∷ xs) = if bytes_eq k x.member then some x.score else score_of k xs

-- Every member stands in the list once.
abbrev pub IsMap : List ScoredMember → Type 0
IsMap [] = Unit
IsMap (x ∷ xs) = (score_of x.member xs ≡ none) × IsMap xs

-- Every member is before those behind it, by score and then by its bytes.
abbrev pub IsAscending : List ScoredMember → Type 0
IsAscending [] = Unit
IsAscending (x ∷ xs) = All (λ y. before x y ≡ true) xs × IsAscending xs

pub All-perm :
    (P : ScoredMember → Type 0) {xs ys : List ScoredMember} → Permᴰ xs ys → All P xs → All P ys
All-perm P Permᴰ.nil h = tt
All-perm P (Permᴰ.cons e p) h = (subst P e h.0, All-perm P p h.1)
All-perm P (Permᴰ.swap e e') h = (subst P e' h.1.0, (subst P e h.0, h.1.1))
All-perm P (Permᴰ.trans p q) h = All-perm P q (All-perm P p h)

pub apart_of_new :
    (x y : ScoredMember) (xs : List ScoredMember)
    → score_of x.member (y ∷ xs) ≡ none
    → (bytes_eq x.member y.member ≡ false) × (score_of x.member xs ≡ none)
unfolding score_of
apart_of_new x y xs h = ground arith

-- Two neighbours of a map may change places.
swap_scores :
    (a b : ScoredMember) (l : List ScoredMember) (k : Bytes)
    → IsMap (a ∷ b ∷ l)
    → score_of k (a ∷ b ∷ l) ≡ score_of k (b ∷ a ∷ l)
unfolding score_of
swap_scores a b l k h = ground (
  arith,
  apart_of_new a b l h.0,
  bytes_eq_iff k a.member,
  bytes_eq_iff k b.member,
  bytes_eq_iff a.member b.member,
)

swap_IsMap : (a b : ScoredMember) (l : List ScoredMember) → IsMap (a ∷ b ∷ l) → IsMap (b ∷ a ∷ l)
unfolding score_of
swap_IsMap a b l h =
    let (apart, new) = apart_of_new a b l h.0 in
    (rw (bytes_eq_comm b.member a.member, apart) h.1.0, (new, h.1.1))

mutual
  unfolding score_of

  pub score_of-perm :
      {xs ys : List ScoredMember}
      → Permᴰ xs ys
      → IsMap xs
      → (k : Bytes) → score_of k xs ≡ score_of k ys
  score_of-perm Permᴰ.nil h k = refl
  score_of-perm (Permᴰ.cons e p) h k = rw (e, score_of-perm p h.1 k) refl
  score_of-perm (Permᴰ.swap {a = a} {b = b} {l = l} e e') h k =
      swap_scores a b l k h ∙ ap (score_of k) (ap₂ (λ x y. x ∷ y ∷ l) e' e)
  score_of-perm (Permᴰ.trans p q) h k = score_of-perm p h k ∙ score_of-perm q (IsMap-perm p h) k

  pub IsMap-perm : {xs ys : List ScoredMember} → Permᴰ xs ys → IsMap xs → IsMap ys
  IsMap-perm Permᴰ.nil h = tt
  IsMap-perm (Permᴰ.cons {a = a} e p) h =
      (rw⁻¹ e (sym (score_of-perm p h.1 a.member) ∙ h.0), IsMap-perm p h.1)
  IsMap-perm (Permᴰ.swap {a = a} {b = b} {l = l} e e') h =
      subst₂ (λ x y. IsMap (x ∷ y ∷ l)) e' e (swap_IsMap a b l h)
  IsMap-perm (Permᴰ.trans p q) h = IsMap-perm q (IsMap-perm p h)

pub sorted_insert-perm :
    (x : ScoredMember) (ys : List ScoredMember) → Permᴰ (sorted_insert x ys) (x ∷ ys)
unfolding sorted_insert
sorted_insert-perm x [] = Permᴰ.refl (x ∷ [])
sorted_insert-perm x (y ∷ ys) = elim (Bool-cases (before y x)) [
  | inl first ↦
      rw first (Permᴰ.trans (Permᴰ.cons refl (sorted_insert-perm x ys)) (Permᴰ.swap refl refl))
  | inr other ↦ rw other (Permᴰ.refl (x ∷ y ∷ ys))
]

pub sort_members-perm : (xs : List ScoredMember) → Permᴰ (sort_members xs) xs
unfolding sort_members
sort_members-perm [] = Permᴰ.nil
sort_members-perm (x ∷ xs) =
    Permᴰ.trans (sorted_insert-perm x (sort_members xs)) (Permᴰ.cons refl (sort_members-perm xs))

before_all :
    (x y : ScoredMember) (ys : List ScoredMember)
    → IsNumber x
    → IsNumber y
    → All IsNumber ys
    → before x y ≡ true
    → All (λ z. before y z ≡ true) ys
    → All (λ z. before x z ≡ true) ys
before_all x y [] hx hy hs h rest = tt
before_all x y (z ∷ zs) hx hy hs h rest =
    (before_trans x y z hx hy hs.0 h rest.0, before_all x y zs hx hy hs.1 h rest.1)

sorted_insert-IsAscending :
    (x : ScoredMember) (ys : List ScoredMember)
    → IsNumber x
    → All IsNumber ys
    → score_of x.member ys ≡ none
    → IsAscending ys
    → IsAscending (sorted_insert x ys)
unfolding sorted_insert
sorted_insert-IsAscending x [] hx hs new h = (tt, tt)
sorted_insert-IsAscending x (y ∷ ys) hx hs new h =
    let (apart, new_below) = apart_of_new x y ys new in
    elim (Bool-cases (before y x)) [
      | inl first ↦ rw first (
        All-perm (λ z. before y z ≡ true) (Permᴰ.symm (sorted_insert-perm x ys)) (first, h.0),
        sorted_insert-IsAscending x ys hx hs.1 new_below h.1,
      )
      | inr other ↦
          let below : before x y ≡ true = before-total x y hx hs.0 apart other in
          rw other ((below, before_all x y ys hx hs.0 hs.1 below h.0), h)
    ]

-- Sorting a map of scores that are numbers gives the ascending list of it.
pub sort_members-IsAscending :
    (xs : List ScoredMember) → All IsNumber xs → IsMap xs → IsAscending (sort_members xs)
unfolding sort_members
sort_members-IsAscending [] hs h = tt
sort_members-IsAscending (x ∷ xs) hs h =
    let sorted = Permᴰ.symm (sort_members-perm xs) in
    sorted_insert-IsAscending x (sort_members xs) hs.0 (All-perm IsNumber sorted hs.1)
      (sym (score_of-perm sorted h.1 x.member) ∙ h.0) (sort_members-IsAscending xs hs.1 h.1)
