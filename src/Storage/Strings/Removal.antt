-- ===== src/Storage/Strings/Removal.antt =====
-- DEL and FLUSHALL: what is removed, what stays, and how much is counted.
use keyp.Base.{
  ℕ, zero, suc, ◌+◌, ◌%◌, ◌^◌, ◌≡◌, ◌≤◌, ◌<◌, inl, inr, refl, sym, ap, ◌∙◌, arith, true, false,
}
use keyp.Base.{List, [], ◌∷◌, none, some, if◌then◌else◌, length, Bool, All, not, ◌&&◌, ◌||◌, ◌==◌}
use keyp.Base.{Bool-cases, ==_refl, ==_iff}
use keyp.Bytes.{Bytes, bytes_eq, bytes_eq_iff}
use keyp.Domain.{Context, not_found}
use keyp.Lmdb.{Lmdb, Reply, ok, err, IsStore, IsReliable, IsCursor}
use keyp.Storage.{Client, Opened, sel-Opened, ctx_flush}
use keyp.Storage.Strings.{del, del_txn, del_loop, flush_loop, flush_txn, flush_all}
use mathlib.Core.Path.{fun_ext}
use native.Mathlib.Nat.{add-zero, add_assoc, zero-add}

abbrev pub is_ok : Reply Bytes → Bool
is_ok (ok v) = true
is_ok (err e) = false

abbrev pub member : Bytes → List Bytes → Bool
member k [] = false
member k (j ∷ js) = bytes_eq k j || member k js

abbrev pub without : Bytes → (Bytes → Bool) → Bytes → Bool
without k present j = present j && not (bytes_eq j k)

-- How many different keys of the list are present.
unfoldable pub count_present : (Bytes → Bool) → List Bytes → ℕ
count_present present [] = 0
count_present present (k ∷ ks) = (if present k then 1 else 0) + count_present (without k present) ks

abbrev pub IsKey : Bytes → Type 0
IsKey k = (0 < length k) × (length k ≤ 511)

flushed : (ctx : Context) → ((i : ℕ) → ctx.done i ≡ none) → (i : ℕ) → ctx_flush ctx i ≡ none
flushed ctx live i = rw (live i, ctx_flush) refl

and_false : (b : Bool) → (b && false) ≡ false
and_false true = refl
and_false false = refl

and_true : (b : Bool) → (b && true) ≡ b
and_true true = refl
and_true false = refl

merge :
    (same_db later here : Bool) (found : Reply Bytes)
    → (if same_db && later then err not_found else if same_db && here then err not_found else found)
      ≡ (if same_db && (here || later) then err not_found else found)
merge same_db later here found = ground arith

widen :
    (same_db later here : Bool) {found : Reply Bytes}
    → ((same_db && here) ≡ true → found ≡ err not_found)
    → (if same_db && later then err not_found else found)
      ≡ (if same_db && (here || later) then err not_found else found)
widen false later here h = refl
widen true true here h = ground arith
widen true false true h = h refl
widen true false false h = refl

module _ {l : Lmdb} (s : IsStore l) (r : IsReliable l) (d : ℕ) where
  abbrev present_in : l.Env → Bytes → Bool
  present_in t k = is_ok (l.get t d k)

  -- The contents `t'` are `t` without the keys.
  abbrev Removes : List Bytes → l.Env → l.Env → Type 0
  Removes keys t t' =
      (d' : ℕ) (k' : Bytes)
      → l.get t' d' k' ≡ (if d' == d && member k' keys then err not_found else l.get t d' k')

  cut :
      (b : Bool) (found : Reply Bytes)
      → is_ok (if b then err not_found else found) ≡ (is_ok found && not b)
  cut b found = ground arith

  present_after_del :
      (t t' : l.Env) (k : Bytes) → l.del t d k ≡ ok t' → present_in t' ≡ without k (present_in t)
  present_after_del t t' k deleted =
      fun_ext λ j. rw (s.get-del t t' d k deleted d j, ==_refl d) (cut (bytes_eq j k) (l.get t d j))

  absent_without :
      (t : l.Env) (k : Bytes)
      → l.get t d k ≡ err not_found
      → without k (present_in t) ≡ present_in t
  absent_without t k missing = fun_ext λ j. elim (Bool-cases (bytes_eq j k)) [
    | inl same ↦ let e : j ≡ k = (bytes_eq_iff j k).0 same in rw (e, missing) refl
    | inr other ↦ rw other (and_true (present_in t j))
  ]

  absent_here :
      (t : l.Env) (k : Bytes) (d' : ℕ) (k' : Bytes)
      → l.get t d k ≡ err not_found
      → (d' == d && bytes_eq k' k) ≡ true
      → l.get t d' k' ≡ err not_found
  absent_here t k d' k' missing same =
      let both : (d' ≡ d) × (k' ≡ k) = ground (arith, ==_iff d' d, bytes_eq_iff k' k) in
      rw (both.0, both.1) missing

  del_loop-Removes :
      (keys : List Bytes) (n : ℕ) (t : l.Env)
      → All IsKey keys
      → n + length keys < 2 ^ 32
      → (t' : l.Env) × (del_loop l d keys n t ≡ (n + count_present (present_in t) keys, ok t'))
        × Removes keys t t'
  unfolding del_loop count_present
  del_loop-Removes [] n t h small =
      (t, rw (add-zero n) refl, λ d' k'. rw (and_false (d' == d)) refl)
  del_loop-Removes (k ∷ ks) n t h small = elim (r.get_runs t d k h.0.0 h.0.1) [
    | inl (v, found) ↦
        let (t', deleted) = r.del_runs t d k found in
        let (t'', run, removed) = del_loop-Removes ks (n + 1) t' h.1 (omega (arith, small)) in
        let fits : (n + 1) % 2 ^ 32 ≡ n + 1 = omega (arith, small) in
        (
          t'',
          rw (deleted, del_loop, fits, found)
              (run
                ∙ rw (present_after_del t t' k deleted) (ap (λ m. (m, ok t'')) (add_assoc n 1 _))),
          λ d' k'.
              removed d' k'
              ∙ rw (s.get-del t t' d k deleted d' k')
                  (merge (d' == d) (member k' ks) (bytes_eq k' k) (l.get t d' k')),
        )
    | inr missing ↦
        let (t'', run, removed) = del_loop-Removes ks n t h.1 (omega (arith, small)) in
        (
          t'',
          rw (s.del_missing t d k missing, del_loop, missing, absent_without t k missing)
              (run ∙ ap (λ m. (n + m, ok t'')) (sym (zero-add _))),
          λ d' k'.
              removed d' k'
              ∙ widen (d' == d) (member k' ks) (bytes_eq k' k) (absent_here t k d' k' missing),
        )
  ]

module _ {l : Lmdb} (s : IsStore l) (r : IsReliable l) where
  -- On a reliable environment, with a live context and its database open: DEL of one key or more,
  -- fewer than 2 ^ 32, each of 1 to 511 bytes, removes every listed key, counts the different
  -- ones that were present, and touches no other key.
  pub del_refines :
      (ctx : Context) (k : Bytes) (keys : List Bytes) (c : Client l) (d : ℕ)
      → ((i : ℕ) → ctx.done i ≡ none)
      → Opened l ctx c d
      → All IsKey (k ∷ keys)
      → length (k ∷ keys) < 2 ^ 32
      → (t : l.Env) × (del l ctx (k ∷ keys) c
          ≡ (record c { env = t }, ok (count_present (λ j. is_ok (l.get c.env d j)) (k ∷ keys))))
        × Removes s r d (k ∷ keys) c.env t
  unfolding del del_txn
  del_refines ctx k keys c d live opened admissible small =
      let (t, run, removed) = del_loop-Removes s r d (k ∷ keys) 0 c.env admissible (omega arith) in
      (
        t,
        rw (sel-Opened l ctx c d opened, flushed ctx live 0, r.update_runs, flushed ctx live 1, run)
            (ap (λ m. (record c { env = t }, ok m)) (zero-add _)),
        removed,
      )

module _ {l : Lmdb} (u : IsCursor l) (d : ℕ) where
  -- The loop of FLUSHALL ends, with the database empty and the others untouched.
  flush_loop_empties :
      (fuel : ℕ) (t : l.Env)
      → l.entries t d < fuel
      → (t' : l.Env) × (flush_loop l fuel d t ≡ some (ok t'))
        × ((k : Bytes) → l.get t' d k ≡ err not_found)
        × ((d' : ℕ) (k' : Bytes) → (d' == d) ≡ false → l.get t' d' k' ≡ l.get t d' k')
  unfolding flush_loop
  flush_loop_empties zero t less = absurd (omega arith)
  flush_loop_empties (suc fuel) t less = elim (u.walk_runs t d) [
    | inl (k, t', first, deleted) ↦
        let (t'', run, empty, others) =
          flush_loop_empties fuel t' (omega (arith, u.del_shrinks t t' d deleted)) in
        (
          t'',
          rw (first, deleted, flush_loop) run,
          empty,
          λ d' k' other. others d' k' other ∙ u.del_others t t' d deleted d' k' other,
        )
    | inr missing ↦
        (t, rw (missing, flush_loop) refl, λ k. u.first_missing t d k missing, λ d' k' other. refl)
  ]

-- On a reliable environment, with a live context and its database open: FLUSHALL ends and answers
-- without error; the database of the context is then empty, and every other database reads as
-- before.
pub flush_all_empties :
    {l : Lmdb} (r : IsReliable l) (u : IsCursor l) (ctx : Context) (c : Client l) (d : ℕ)
    → ((i : ℕ) → ctx.done i ≡ none)
    → Opened l ctx c d
    → (t : l.Env) × (flush_all l ctx c ≡ (record c { env = t }, none))
      × ((k : Bytes) → l.get t d k ≡ err not_found)
      × ((d' : ℕ) (k' : Bytes) → (d' == d) ≡ false → l.get t d' k' ≡ l.get c.env d' k')
unfolding flush_all flush_txn
flush_all_empties {l} r u ctx c d live opened =
    let (t, run, empty, others) =
      flush_loop_empties u d (suc (l.entries c.env d)) c.env (omega arith) in
    (
      t,
      rw (flushed ctx live 0, sel-Opened l ctx c d opened, r.update_runs, u.open_runs, run) refl,
      empty,
      others,
    )
