-- ===== src/Storage/Sets/Members.antt =====
-- The map `existingMembers` as a list without repetitions, and what a walk over it can change.
use keyp.Base.{ℕ, ◌+◌, ◌≡◌, refl, sym, ◌∙◌, arith, true, false, ◌||◌, List, [], ◌∷◌, ◌++◌}
use keyp.Base.{length, length-append, Bool-cases, inl, inr}
use keyp.Bytes.{Bytes, bytes_eq, bytes_eq_iff}
use keyp.Storage.Sets.{member, add_member, add_all}
use mathlib.Core.Path.{subst₂}
use mathlib.Core.List.{Permᴰ}
use mathlib.Core.List.Permᴰ.{nil, cons, swap, trans}

pub bytes_eq_comm : (x y : Bytes) → bytes_eq x y ≡ bytes_eq y x
bytes_eq_comm x y = ground (arith, bytes_eq_iff x y, bytes_eq_iff y x)

abbrev pub IsDistinct : List Bytes → Type 0
IsDistinct [] = Unit
IsDistinct (x ∷ xs) = (member x xs ≡ false) × IsDistinct xs

pub member-append :
    (k : Bytes) (xs ys : List Bytes) → member k (xs ++ ys) ≡ (member k xs || member k ys)
unfolding member
member-append k [] ys = refl
member-append k (x ∷ xs) ys = rw (member-append k xs ys) (ground arith)

pub IsDistinct-append :
    (xs : List Bytes) (x : Bytes) → IsDistinct xs → member x xs ≡ false → IsDistinct (xs ++ x ∷ [])
unfolding member
IsDistinct-append [] x h new = (refl, tt)
IsDistinct-append (y ∷ ys) x h new = (
  rw (member-append y ys (x ∷ [])) (ground (arith, h.0, bytes_eq_comm x y, new)),
  IsDistinct-append ys x h.1 (ground (arith, new)),
)

pub IsDistinct-middle :
    (xs : List Bytes) (x : Bytes) (ys : List Bytes)
    → IsDistinct (xs ++ x ∷ ys)
    → member x xs ≡ false
unfolding member
IsDistinct-middle [] x ys h = refl
IsDistinct-middle (z ∷ xs) x ys h =
    let apart : member z (xs ++ x ∷ ys) ≡ false = h.0 in
    ground
      (arith, member-append z xs (x ∷ ys), apart, bytes_eq_comm x z, IsDistinct-middle xs x ys h.1)

-- What `order` may do: the walk shows every member once.
pub record IsWalk (order : List Bytes → List Bytes) : Type 0 where
  pub shows : (xs : List Bytes) → Permᴰ (order xs) xs

pub member-perm : {xs ys : List Bytes} → Permᴰ xs ys → (k : Bytes) → member k xs ≡ member k ys
unfolding member
member-perm nil k = refl
member-perm (cons e p) k = rw (e, member-perm p k) refl
member-perm (swap {l = l} e e') k = rw (e, e') (ground arith)
member-perm (trans p q) k = member-perm p k ∙ member-perm q k

pub length-perm : {xs ys : List Bytes} → Permᴰ xs ys → length xs ≡ length ys
length-perm nil = refl
length-perm (cons e p) = omega (arith, length-perm p)
length-perm (swap e e') = refl
length-perm (trans p q) = length-perm p ∙ length-perm q

pub IsDistinct-perm : {xs ys : List Bytes} → Permᴰ xs ys → IsDistinct xs → IsDistinct ys
unfolding member
IsDistinct-perm nil h = tt
IsDistinct-perm (cons {a = a} {b = b} e p) h =
    (rw⁻¹ e (sym (member-perm p a) ∙ h.0), IsDistinct-perm p h.1)
IsDistinct-perm (swap {a = a} {b = b} {l = l} e e') h =
    let apart : (bytes_eq b a || member b l) ≡ false =
      ground (arith, h.0, h.1.0, bytes_eq_comm a b) in
    let new : member a l ≡ false = ground (arith, h.0) in
    subst₂ (λ x y. IsDistinct (x ∷ y ∷ l)) e' e (apart, (new, h.1.1))
IsDistinct-perm (trans p q) h = IsDistinct-perm q (IsDistinct-perm p h)

-- SADD's loop: the members then, how many were new, and that none is there twice.
pub record Adds (found members : List Bytes) (added : ℕ) (result : ℕ × List Bytes) : Type 0 where
  pub same_members : (k : Bytes) → member k result.1 ≡ (member k found || member k members)
  pub counted : length result.1 + added ≡ length found + result.0
  pub distinct : IsDistinct result.1

known_member :
    (found ms : List Bytes) (m k : Bytes)
    → member m found ≡ true
    → (member k found || member k ms) ≡ (member k found || member k (m ∷ ms))
unfolding member
known_member found ms m k there = elim (Bool-cases (bytes_eq k m)) [
  | inl same ↦ let e : k ≡ m = (bytes_eq_iff k m).0 same in rw (e, there) refl
  | inr other ↦ rw other refl
]

pub add_all-Adds :
    (found members : List Bytes) (added : ℕ)
    → IsDistinct found
    → Adds found members added (add_all found added members)
unfolding add_all add_member member
add_all-Adds found [] added h = record {
  same_members = λ k. ground arith;
  counted = refl;
  distinct = h;
}
add_all-Adds found (m ∷ ms) added h = elim (Bool-cases (member m found)) [
  | inl there ↦
      let rest = add_all-Adds found ms added h in
      rw there (record {
        same_members = λ k. rest.same_members k ∙ known_member found ms m k there;
        counted = rest.counted;
        distinct = rest.distinct;
      })
  | inr new ↦
      let rest = add_all-Adds (found ++ m ∷ []) ms (added + 1) (IsDistinct-append found m h new) in
      rw new (record {
        same_members =
            λ k. rest.same_members k ∙ rw (member-append k found (m ∷ [])) (ground arith);
        counted = omega (arith, rest.counted, length-append found (m ∷ []));
        distinct = rest.distinct;
      })
]
