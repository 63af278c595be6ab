-- ===== src/Storage/Opening/Laws.antt =====
-- What NewClient leaves behind, on success and on every failure.
use keyp.Base.{ℕ, ◌≡◌, Bool, true, false, Option, none, some}
use keyp.Base.{List}
use keyp.Bytes.{Bytes}
use keyp.Domain.{Error}
use keyp.Dict.{nat_eq}
use keyp.Lmdb.{Lmdb, Reply, ok, err}
use keyp.Storage.{Client}
use keyp.Storage.Opening.{Flag, Opener, fresh_client}

-- What is documented of opening and closing, where `is_open` tells of an environment whether it is open.
pub record IsOpener {l : Lmdb} (o : Opener l) (is_open : o.Handle → Bool) : Type 0 where
  pub opens :
      (dir : Bytes) (flags : List Flag) (perm : ℕ) (h h' : o.Handle)
      → o.open_env dir flags perm h ≡ (h', none)
      → is_open h' ≡ true
  pub closes : (h : o.Handle) → is_open (o.close_env h) ≡ false

module _ {l : Lmdb} (o : Opener l) (is_open : o.Handle → Bool) where
  -- A client comes with an open environment, and is new; an error leaves none open.
  pub data LeavesNoLeak : Reply (Client l) × Option o.Handle → Type 0 where
    made :
        (h : o.Handle) → is_open h ≡ true → LeavesNoLeak (ok (fresh_client (o.contents h)), some h)
    not_made : (e : Error) → LeavesNoLeak (err e, none)
    closed : (e : Error) (h : o.Handle) → is_open h ≡ false → LeavesNoLeak (err e, some h)
