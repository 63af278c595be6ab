-- ===== src/Lmdb.antt =====
-- The LMDB binding, which the repository does not hold: its operations are a record that every
-- definition of the storage layer takes, and what its documentation promises is stated beside it.
pub mod Memory
use keyp.Base.{
  ℕ, ◌≤◌, ◌<◌, ◌≡◌, ◌⊎◌, Option, none, some, Bool, false, ◌&&◌, ◌==◌, length, if◌then◌else◌,
}
use keyp.Bytes.{Bytes, bytes_eq}
use keyp.Domain.{Error, not_found}

-- A value or an error.
pub data Reply {ℓ} (A : Type ℓ) : Type ℓ where
  ok : A → Reply A
  err : Error → Reply A

abbrev pub error_of {ℓ} : {A : Type ℓ} → Reply A → Option Error
error_of (ok a) = none
error_of (err e) = some e

abbrev pub ok_or {ℓ} : {A : Type ℓ} → A → Reply A → A
ok_or d (ok a) = a
ok_or d (err e) = d

-- What a caller does with an error and with a value.
abbrev pub on_reply {ℓ κ} : {A : Type ℓ} {B : Type κ} → Reply A → (Error → B) → (A → B) → B
on_reply (ok a) f g = g a
on_reply (err e) f g = f e

abbrev pub on_error {ℓ} : {B : Type ℓ} → Option Error → (Error → B) → B → B
on_error none f b = b
on_error (some e) f b = f e

-- An `Env` is the contents of an environment, as a transaction sees or leaves them. `update` and
-- `view` are given the values of the variables that the closure captures; `update` gives them back
-- with the committed contents, or with an error, after which the old contents stand.
pub record Lmdb : Type 1 where
  pub Env : Type 0
  pub get : Env → ℕ → Bytes → Reply Bytes
  pub put : Env → ℕ → Bytes → Bytes → Reply Env
  pub del : Env → ℕ → Bytes → Reply Env
  pub open_dbi : Env → Bytes → ℕ × Reply Env
  pub open_cursor : Env → ℕ → Option Error
  pub cursor_first : Env → ℕ → Reply Bytes
  pub cursor_del : Env → ℕ → Reply Env
  pub entries : Env → ℕ → ℕ
  pub update : {A : Type 0} → A → (Env → A × Reply Env) → Env → A × Reply Env
  pub view : {A : Type 0} → A → (Env → A × Option Error) → Env → A × Option Error
  pub errno_text : ℕ → Bytes

abbrev pub same_place : ℕ → Bytes → ℕ → Bytes → Bool
same_place d k d' k' = d' == d && bytes_eq k' k

-- The documented behaviour of reads after writes.
pub record IsStore (l : Lmdb) : Type 0 where
  pub get-put :
      (t t' : l.Env) (d : ℕ) (k v : Bytes)
      → l.put t d k v ≡ ok t'
      → (d' : ℕ) (k' : Bytes)
      → l.get t' d' k' ≡ (if same_place d k d' k' then ok v else l.get t d' k')
  pub get-del :
      (t t' : l.Env) (d : ℕ) (k : Bytes)
      → l.del t d k ≡ ok t'
      → (d' : ℕ) (k' : Bytes)
      → l.get t' d' k' ≡ (if same_place d k d' k' then err not_found else l.get t d' k')
  pub del_missing :
      (t : l.Env) (d : ℕ) (k : Bytes) → l.get t d k ≡ err not_found → l.del t d k ≡ err not_found

-- What a cursor at the first entry of a database shows and removes.
pub record IsCursor (l : Lmdb) : Type 0 where
  pub del_shrinks :
      (t t' : l.Env) (d : ℕ) → l.cursor_del t d ≡ ok t' → l.entries t' d < l.entries t d
  pub del_others :
      (t t' : l.Env) (d : ℕ)
      → l.cursor_del t d ≡ ok t'
      → (d' : ℕ) (k' : Bytes) → (d' == d) ≡ false
      → l.get t' d' k' ≡ l.get t d' k'
  pub first_missing :
      (t : l.Env) (d : ℕ) (k : Bytes)
      → l.cursor_first t d ≡ err not_found
      → l.get t d k ≡ err not_found
  pub open_runs : (t : l.Env) (d : ℕ) → l.open_cursor t d ≡ none
  pub walk_runs :
      (t : l.Env) (d : ℕ)
      → ((k : Bytes) × (t' : l.Env) × (l.cursor_first t d ≡ ok k) × (l.cursor_del t d ≡ ok t'))
        ⊎ (l.cursor_first t d ≡ err not_found)

-- No fault of the disk, the map or the transaction table: closures run and their work is committed,
-- a key of an admissible length is stored, and a present key is removed.
pub record IsReliable (l : Lmdb) : Type 1 where
  pub update_runs :
      {A : Type 0} (a : A) (body : l.Env → A × Reply l.Env) (t : l.Env) → l.update a body t ≡ body t
  pub view_runs :
      {A : Type 0} (a : A) (body : l.Env → A × Option Error) (t : l.Env) → l.view a body t ≡ body t
  pub get_runs :
      (t : l.Env) (d : ℕ) (k : Bytes)
      → 0 < length k
      → length k ≤ 511
      → ((v : Bytes) × (l.get t d k ≡ ok v)) ⊎ (l.get t d k ≡ err not_found)
  pub put_runs :
      (t : l.Env) (d : ℕ) (k v : Bytes)
      → 0 < length k
      → length k ≤ 511
      → (t' : l.Env) × (l.put t d k v ≡ ok t')
  pub del_runs :
      (t : l.Env) (d : ℕ) (k : Bytes) {v : Bytes}
      → l.get t d k ≡ ok v
      → (t' : l.Env) × (l.del t d k ≡ ok t')
