-- ===== src/Dict/Laws.antt =====
-- The laws of maps: what a write and a removal do to every lookup.
use keyp.Base.{◌≡◌, refl, none, some, [], ◌∷◌, if◌then◌else◌, arith}
use keyp.Base.{◌⊎◌, inl, inr, Bool-cases, true, false, sym, ◌∙◌}
use mathlib.Core.Option.{some_inj}
use keyp.Dict.{Eq, ◌=?◌, Dict, lookup, insert, delete}

module _ {ℓ κ} {K : Type ℓ} {V : Type κ} ⦃e : Eq K⦄ where
  pub lookup-insert :
      (k j : K) (v : V) (m : Dict K V)
      → lookup j (insert k v m) ≡ (if j =? k then some v else lookup j m)
  unfolding lookup insert
  lookup-insert k j v [] = refl
  lookup-insert k j v ((i, w) ∷ m) =
      ground (arith, e.beq_iff k i, e.beq_iff j i, e.beq_iff j k, lookup-insert k j v m)

  pub lookup-delete :
      (k j : K) (m : Dict K V) → lookup j (delete k m) ≡ (if j =? k then none else lookup j m)
  unfolding lookup delete
  lookup-delete k j [] = ground arith
  lookup-delete k j ((i, w) ∷ m) =
      ground (arith, e.beq_iff k i, e.beq_iff j i, e.beq_iff j k, lookup-delete k j m)

  -- What is found after a write is what was written, or was found before.
  pub found_after_insert :
      (k j : K) (v w : V) (m : Dict K V)
      → lookup j (insert k v m) ≡ some w
      → (((j =? k) ≡ true) × (v ≡ w)) ⊎ (((j =? k) ≡ false) × (lookup j m ≡ some w))
  found_after_insert k j v w m found = elim (Bool-cases (j =? k)) [
    | inl same ↦ inl (same, some_inj.0 (sym (lookup-insert k j v m ∙ rw same refl) ∙ found))
    | inr other ↦ inr (other, sym (lookup-insert k j v m ∙ rw other refl) ∙ found)
  ]

  -- What is found after a removal is another entry, found before.
  pub found_after_delete :
      (k j : K) (w : V) (m : Dict K V)
      → lookup j (delete k m) ≡ some w
      → ((j =? k) ≡ false) × (lookup j m ≡ some w)
  found_after_delete k j w m found = elim (Bool-cases (j =? k)) [
    | inl same ↦
        let gone : lookup j (delete k m) ≡ none = lookup-delete k j m ∙ rw same refl in
        absurd (ground (arith, gone, found))
    | inr other ↦ (other, sym (lookup-delete k j m ∙ rw other refl) ∙ found)
  ]
