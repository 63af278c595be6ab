-- ===== src/Lmdb/Memory.antt =====
-- An environment in memory, for the runs: every call does at once what is documented of LMDB.
use keyp.Base.{ℕ, ◌+◌, ◌≡◌, ◌↔◌, refl, true, Option, none, some, arith}
use keyp.Base.{[], ◌∷◌, ◌==◌, if◌then◌else◌, Bool-cases, inl, inr, ap, ◌≤◌, ◌<◌, ◌⊎◌}
use mathlib.Core.Path.{subst}
use keyp.Bytes.{Bytes, bytes_eq_iff}
use keyp.Dict.{Eq, Dict, lookup, insert, delete}
use keyp.Dict.Laws.{lookup-insert, lookup-delete}
use keyp.Domain.{not_found}
use keyp.Lmdb.{Lmdb, Reply, ok, err, ok_or, IsCursor, IsStore, IsReliable, same_place}

abbrev pub Place : Type 0
Place = ℕ × Bytes

pub place_beq_iff : (a b : Place) → (same_place b.0 b.1 a.0 a.1 ≡ true) ↔ (a ≡ b)
place_beq_iff (d, k) (d', k') = ground (arith, bytes_eq_iff k k')

instance abbrev pub place_eq : Eq Place
place_eq = record { beq = λ a b. same_place b.0 b.1 a.0 a.1; beq_iff = place_beq_iff }

abbrev pub Contents : Type 0
Contents = Dict Place Bytes

unfoldable pub found : Option Bytes → Reply Bytes
found none = err not_found
found (some v) = ok v

unfoldable pub remove : Option Bytes → Place → Contents → Reply Contents
remove none p t = err not_found
remove (some v) p t = ok (delete p t)

unfoldable pub first_key : ℕ → Contents → Option Bytes
first_key d [] = none
first_key d ((p, v) ∷ t) = if p.0 == d then some p.1 else first_key d t

unfoldable pub count_entries : ℕ → Contents → ℕ
count_entries d [] = 0
count_entries d ((p, v) ∷ t) = (if p.0 == d then 1 else 0) + count_entries d t

unfoldable pub remove_first : Option Bytes → ℕ → Contents → Reply Contents
remove_first none d t = err not_found
remove_first (some k) d t = ok (delete (d, k) t)

abbrev pub memory : Lmdb
memory = record {
  Env = Contents;
  get = λ t d k. found (lookup (d, k) t);
  put = λ t d k v. ok (insert (d, k) v t);
  del = λ t d k. remove (lookup (d, k) t) (d, k) t;
  open_dbi = λ t name. (1, ok t);
  open_cursor = λ t d. none;
  cursor_first = λ t d. found (first_key d t);
  cursor_del = λ t d. remove_first (first_key d t) d t;
  entries = λ t d. count_entries d t;
  update = λ a body t. body t;
  view = λ a body t. body t;
  errno_text = λ e. [];
}

get_insert :
    (t : Contents) (d : ℕ) (k v : Bytes) (d' : ℕ) (k' : Bytes)
    → found (lookup (d', k') (insert (d, k) v t))
      ≡ (if same_place d k d' k' then ok v else found (lookup (d', k') t))
get_insert t d k v d' k' = rw lookup-insert (elim (Bool-cases (same_place d k d' k')) [
  | inl here ↦ rw here (unfold found in refl)
  | inr other ↦ rw other refl
])

get_delete :
    (t : Contents) (d : ℕ) (k : Bytes) (d' : ℕ) (k' : Bytes)
    → found (lookup (d', k') (delete (d, k) t))
      ≡ (if same_place d k d' k' then err not_found else found (lookup (d', k') t))
get_delete t d k d' k' = rw lookup-delete (elim (Bool-cases (same_place d k d' k')) [
  | inl here ↦ rw here (unfold found in refl)
  | inr other ↦ rw other refl
])

remove_done :
    (o : Option Bytes) (p : Place) (t t' : Contents) → remove o p t ≡ ok t' → delete p t ≡ t'
unfolding remove
remove_done none p t t' h = absurd (cc)
remove_done (some v) p t t' h = ap (ok_or t) h

remove_missing :
    (o : Option Bytes) (p : Place) (t : Contents)
    → found o ≡ err not_found
    → remove o p t ≡ err not_found
unfolding remove found
remove_missing none p t h = refl
remove_missing (some v) p t h = cc

remove_present :
    (o : Option Bytes) (p : Place) (t : Contents) {v : Bytes}
    → found o ≡ ok v
    → (t' : Contents) × (remove o p t ≡ ok t')
unfolding remove found
remove_present none p t h = absurd (cc)
remove_present (some w) p t h = (delete p t, refl)

-- The instance keeps the laws of maps.
pub memory-IsStore : IsStore memory
memory-IsStore = record {
  get-put = λ t t' d k v e d' k'.
      subst
        (λ (u : Contents).
          found (lookup (d', k') u)
          ≡ (if same_place d k d' k' then ok v else found (lookup (d', k') t)))
        (ap (ok_or t) e) (get_insert t d k v d' k');
  get-del = λ t t' d k e d' k'.
      subst
        (λ (u : Contents).
          found (lookup (d', k') u)
          ≡ (if same_place d k d' k' then err not_found else found (lookup (d', k') t)))
        (remove_done (lookup (d, k) t) (d, k) t t' e) (get_delete t d k d' k');
  del_missing = λ t d k. remove_missing (lookup (d, k) t) (d, k) t;
}

get_cases : (o : Option Bytes) → ((v : Bytes) × (found o ≡ ok v)) ⊎ (found o ≡ err not_found)
unfolding found
get_cases none = inr refl
get_cases (some v) = inl (v, refl)

count_delete_le :
    (d : ℕ) (p : Place) (t : Contents) → count_entries d (delete p t) ≤ count_entries d t
unfolding count_entries delete
count_delete_le d p [] = omega arith
count_delete_le d p (e ∷ t) = ground (arith, count_delete_le d p t)

count_delete_first :
    (d : ℕ) (k : Bytes) (t : Contents)
    → first_key d t ≡ some k
    → count_entries d (delete (d, k) t) < count_entries d t
unfolding count_entries delete first_key
count_delete_first d k [] h = absurd (cc)
count_delete_first d k (e ∷ t) h =
    ground (arith, count_delete_le d (d, k) t, count_delete_first d k t, bytes_eq_iff k e.0.1)

pub memory-IsReliable : IsReliable memory
memory-IsReliable = record {
  update_runs = λ a body t. refl;
  view_runs = λ a body t. refl;
  get_runs = λ t d k given short. get_cases (lookup (d, k) t);
  put_runs = λ t d k v given short. (insert (d, k) v t, refl);
  del_runs = λ t d k h. remove_present (lookup (d, k) t) (d, k) t h;
}

remove_first_done :
    (o : Option Bytes) (d : ℕ) (t t' : Contents)
    → remove_first o d t ≡ ok t'
    → (k : Bytes) × (o ≡ some k) × (delete (d, k) t ≡ t')
unfolding remove_first
remove_first_done none d t t' h = absurd (cc)
remove_first_done (some k) d t t' h = (k, refl, ap (ok_or t) h)

missing_lookup :
    (d : ℕ) (k : Bytes) (t : Contents)
    → found (first_key d t) ≡ err not_found
    → lookup (d, k) t ≡ none
unfolding found first_key lookup
missing_lookup d k [] h = refl
missing_lookup d k (e ∷ t) h = ground (arith, missing_lookup d k t)

walk :
    (o : Option Bytes) (d : ℕ) (t : Contents)
    → ((k : Bytes) × (t' : Contents) × (found o ≡ ok k) × (remove_first o d t ≡ ok t'))
      ⊎ (found o ≡ err not_found)
unfolding found remove_first
walk none d t = inr refl
walk (some k) d t = inl (k, delete (d, k) t, refl, refl)

pub memory-IsCursor : IsCursor memory
memory-IsCursor = record {
  del_shrinks = λ t t' d h.
      let (k, first, done) = remove_first_done (first_key d t) d t t' h in
      subst (λ (u : Contents). count_entries d u < count_entries d t) done
        (count_delete_first d k t first);
  del_others = λ t t' d h d' k' other.
      let (k, first, done) = remove_first_done (first_key d t) d t t' h in
      subst (λ (u : Contents). found (lookup (d', k') u) ≡ found (lookup (d', k') t)) done
        (rw lookup-delete (rw other refl));
  first_missing = λ t d k h. unfold found in rw (missing_lookup d k t h) refl;
  open_runs = λ t d. refl;
  walk_runs = λ t d. walk (first_key d t) d t;
}
