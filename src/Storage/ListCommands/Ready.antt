-- ===== src/Storage/ListCommands/Ready.antt =====
-- An operation that can start: the context is live, the database open and the key admissible.
use keyp.Base.{ℕ, ◌≡◌, ◌≤◌, ◌<◌, refl, none, false, [], ◌∷◌, length, arith}
use keyp.Bytes.{Bytes}
use keyp.Domain.{Context}
use keyp.Lmdb.{Lmdb}
use keyp.Storage.{Client, Opened, ctx_flush, is_empty, sel, sel-Opened}

pub record IsReady (l : Lmdb) (ctx : Context) (key : Bytes) (c : Client l) (d : ℕ) : Type 0 where
  pub live : (i : ℕ) → ctx.done i ≡ none
  pub opened : Opened l ctx c d
  pub key_given : 0 < length key
  pub key_short : length key ≤ 511

module _ {l : Lmdb} {ctx : Context} {key : Bytes} {c : Client l} {d : ℕ}
    (ready : IsReady l ctx key c d) where
  pub flush : (i : ℕ) → ctx_flush ctx i ≡ none
  flush i = rw (ready.live i, ctx_flush) refl

  pub key_not_empty : is_empty key ≡ false
  key_not_empty = not_empty key ready.key_given
    where
      not_empty : (k : Bytes) → 0 < length k → is_empty k ≡ false
      not_empty [] h = absurd (omega arith)
      not_empty (b ∷ k) h = refl

  pub selected : sel l ctx c ≡ (c, d, none)
  selected = sel-Opened l ctx c d ready.opened

  -- The next operation can start too.
  pub IsReady-again : (t : l.Env) → IsReady l ctx key (record c { env = t }) d
  IsReady-again t = record {
    live = ready.live;
    opened = ready.opened;
    key_given = ready.key_given;
    key_short = ready.key_short;
  }
