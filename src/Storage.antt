-- ===== src/Storage.antt =====
-- internal/storage/client.go, sel.go and the helpers of utils.go.
pub mod Lists
pub mod KeyType
pub mod ListCommands
pub mod Strings
pub mod Counter
pub mod Sets
pub mod Expiry
pub mod SortedSets
pub mod Selection
pub mod Opening
pub mod Bounds
use keyp.Base.{
  ℕ, zero, suc, ◌+◌, ◌==◌, arith, Bool, true, false, not, Option, none, some, List, [], ◌∷◌, ◌++◌,
}
use keyp.Base.{leb, if◌then◌else◌, length, ◌≡◌, refl}
use keyp.Bytes.{Bytes, codes}
use keyp.Decimal.{format_uint}
use keyp.Dict.{Dict, lookup, insert, nat_eq}
use keyp.Domain.{Error, Context, CtxError, cancel, deadline, background_canceled, deadline_exceeded}
use keyp.Domain.{key_not_found, not_found, db_of}
use keyp.Lmdb.{Lmdb, Reply, ok, err, error_of, ok_or}

-- A timer set by `setTimeout`, with the variables of its closure.
pub record Timer : Type 0 where
  pub running : Bool
  pub due : ℕ
  pub ctx : Context
  pub key : Bytes

-- `TTL`: the function `Cancel` is the number of the timer that it stops.
pub record Ttl : Type 0 where
  pub expire : ℕ
  pub cancel : ℕ

-- `Client`, with the timers that the runtime holds for it.
pub record Client (l : Lmdb) : Type 0 where
  pub env : l.Env
  pub dbi : Dict ℕ ℕ
  pub ttl : Dict ℕ (Dict Bytes Ttl)
  pub timers : Dict ℕ Timer
  pub next_timer : ℕ

abbrev pub has_error : Option Error → Bool
has_error none = false
has_error (some e) = true

abbrev ctx_error : CtxError → Error
ctx_error cancel = background_canceled
ctx_error deadline = deadline_exceeded

-- `ctxFlush(ctx)`, called for the i-th time in an operation.
abbrev pub ctx_flush : Context → ℕ → Option Error
ctx_flush ctx i = elim (ctx.done i) [ none ↦ none | some e ↦ some (ctx_error e) ]

abbrev pub is_empty {ℓ} : {A : Type ℓ} → List A → Bool
is_empty [] = true
is_empty (x ∷ xs) = false

-- `isNotFound(err)` of an error.
abbrev pub is_not_found : Error → Bool
is_not_found not_found = true
is_not_found key_not_found = true
is_not_found _ = false

-- `lmdb.IsNotFound(err)`
abbrev pub is_lmdb_not_found : Error → Bool
is_lmdb_not_found not_found = true
is_lmdb_not_found _ = false

abbrev pub or_zero : Option ℕ → ℕ
or_zero none = 0
or_zero (some n) = n

module _ (l : Lmdb) where
  unfoldable pub has_db : ℕ → Client l → Bool
  has_db db c = elim (lookup db c.dbi) [ none ↦ false | some d ↦ true ]

  abbrev pub db_name : ℕ → Bytes
  db_name db = codes "db_" ++ format_uint db

  -- The closure of `openDB`; it writes `client.dbi[db]` also when `OpenDBI` fails.
  unfoldable pub open_db_txn : ℕ → Dict ℕ ℕ → l.Env → Dict ℕ ℕ × Reply l.Env
  open_db_txn db dbi t = let (d, r) = l.open_dbi t (db_name db) in (insert db d dbi, r)

  unfoldable pub open_db : ℕ → Client l → Client l × Option Error
  open_db db c =
      let (dbi, r) = l.update c.dbi (open_db_txn db c.dbi) c.env in
      (record c { dbi = dbi; env = ok_or c.env r }, error_of r)

  -- `client.sel(ctx)`: the client, the handle and the error.
  unfoldable pub sel : Context → Client l → Client l × ℕ × Option Error
  unfolding has_db open_db open_db_txn
  sel ctx c =
      let (c', e) = if has_db (db_of ctx) c then (c, none) else open_db (db_of ctx) c in
      (c', or_zero (lookup (db_of ctx) c'.dbi), e)

  -- The database that the context names is open, with this handle.
  abbrev pub Opened : Context → Client l → ℕ → Type 0
  Opened ctx c d = lookup (db_of ctx) c.dbi ≡ some d

  pub sel-Opened :
      (ctx : Context) (c : Client l) (d : ℕ) → Opened ctx c d → sel ctx c ≡ (c, d, none)
  unfolding sel
  sel-Opened ctx c d h = rw (h, has_db, sel) (ground arith)
