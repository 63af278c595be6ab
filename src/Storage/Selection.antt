-- ===== src/Storage/Selection.antt =====
-- sel.go: the cache of database handles.
use keyp.Base.{ℕ, ◌≡◌, refl, ◌∙◌, false, none, some, Option-cases, inl, inr, ◌==◌, ==_refl}
use keyp.Dict.{Dict, lookup, insert, nat_eq}
use keyp.Dict.Laws.{lookup-insert}
use keyp.Domain.{Context, db_of}
use keyp.Lmdb.{Lmdb, ok_or, error_of, IsReliable}
use keyp.Storage.{Client, db_name, has_db, open_db, open_db_txn, sel, sel-Opened}

-- What `sel` leaves: the handle is cached, so the next call finds it and reports no error, and nothing
-- else of the client changes.
pub record IsCached (l : Lmdb) (ctx : Context) (c c' : Client l) (d : ℕ) : Type 0 where
  pub again : sel l ctx c' ≡ (c', d, none)
  pub others : (db : ℕ) → (db == db_of ctx) ≡ false → lookup db c'.dbi ≡ lookup db c.dbi
  pub same_ttl : c'.ttl ≡ c.ttl
  pub same_timers : c'.timers ≡ c.timers

pub found_handle : (db d : ℕ) (dbi : Dict ℕ ℕ) → lookup db (insert db d dbi) ≡ some d
found_handle db d dbi = lookup-insert {K = ℕ} db db d dbi ∙ rw (==_refl db) refl

module _ {l : Lmdb} (r : IsReliable l) where
  pub sel-missing :
      (ctx : Context) (c : Client l)
      → lookup (db_of ctx) c.dbi ≡ none
      → sel l ctx c ≡ (
        record c {
          dbi = insert (db_of ctx) (l.open_dbi c.env (db_name l (db_of ctx))).0 c.dbi;
          env = ok_or c.env (l.open_dbi c.env (db_name l (db_of ctx))).1;
        },
        (l.open_dbi c.env (db_name l (db_of ctx))).0,
        error_of (l.open_dbi c.env (db_name l (db_of ctx))).1,
      )
  unfolding sel has_db open_db open_db_txn
  sel-missing ctx c absent =
      rw (absent, sel, has_db, r.update_runs) (rw (found_handle (db_of ctx) _ c.dbi) refl)

  -- On a reliable environment: what sel leaves is cached, whether it opened the database, found
  -- it open or failed: the next call for the same context answers with the same handle and no
  -- error, and changes nothing; the handles of other databases, the times to live and the timers
  -- are as before.
  pub sel-IsCached :
      (ctx : Context) (c : Client l) → IsCached l ctx c (sel l ctx c).0 (sel l ctx c).1
  sel-IsCached ctx c = elim (Option-cases (lookup (db_of ctx) c.dbi)) [
    | inl absent ↦
        let d : ℕ = (l.open_dbi c.env (db_name l (db_of ctx))).0 in
        rw (sel-missing ctx c absent) (record {
          again = sel-Opened l ctx _ d (found_handle (db_of ctx) d c.dbi);
          others = λ db other. lookup-insert {K = ℕ} (db_of ctx) db d c.dbi ∙ rw other refl;
          same_ttl = refl;
          same_timers = refl;
        })
    | inr (d, opened) ↦ rw (sel-Opened l ctx c d opened) (record {
      again = sel-Opened l ctx c d opened;
      others = λ db other. refl;
      same_ttl = refl;
      same_timers = refl;
    })
  ]
