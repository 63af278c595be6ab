-- ===== src/Storage/Opening.antt =====
-- NewClient of client.go and close.go: the life of the environment.
pub mod Laws
use keyp.Base.{ℕ, ◌+◌, ◌*◌, ◌^◌, Option, none, some, List, [], ◌∷◌}
use keyp.Bytes.{Bytes}
use keyp.Domain.{Error}
use keyp.Lmdb.{Lmdb, Reply, ok, err, on_error}
use keyp.Storage.{Client}

-- `performFlags`
pub data Flag : Type 0 where
  write_map no_meta_sync no_sync map_async no_readahead : Flag

-- What NewClient calls of the operating system and of LMDB. A `Handle` is an environment that
-- `NewEnv` made; `contents` is what transactions see in it once it is open.
pub record Opener (l : Lmdb) : Type 1 where
  pub Handle : Type 0
  pub mkdir_all : Bytes → ℕ → Option Error
  pub new_env : Handle × Option Error
  pub set_max_dbs : ℕ → Handle → Handle × Option Error
  pub set_map_size : ℕ → Handle → Handle × Option Error
  pub set_max_readers : ℕ → Handle → Handle × Option Error
  pub open_env : Bytes → List Flag → ℕ → Handle → Handle × Option Error
  pub close_env : Handle → Handle
  pub contents : Handle → l.Env

abbrev pub dir_perm : ℕ
dir_perm = 493

abbrev pub file_perm : ℕ
file_perm = 420

abbrev max_databases : ℕ
max_databases = 100

abbrev map_size_bytes : ℕ
map_size_bytes = 4 * 2 ^ 30

abbrev pub perform_flags : List Flag
perform_flags = write_map ∷ no_meta_sync ∷ no_sync ∷ map_async ∷ no_readahead ∷ []

-- `if noError(err) { err = … }`
abbrev pub if_no_error {ℓ} :
    {H : Type ℓ} → H × Option Error → (H → H × Option Error) → H × Option Error
if_no_error (h, none) step = step h
if_no_error (h, some e) step = (h, some e)

module _ {l : Lmdb} where
  -- The `Client` that NewClient makes.
  abbrev pub fresh_client : l.Env → Client l
  fresh_client t = record { env = t; dbi = []; ttl = []; timers = []; next_timer = 0 }

module _ (l : Lmdb) (o : Opener l) where
  -- A new environment with its limits set, and the error of the first call that failed.
  unfoldable pub configured : o.Handle × Option Error
  configured =
      if_no_error
        (if_no_error (if_no_error o.new_env (o.set_max_dbs (max_databases + 1)))
          (o.set_map_size map_size_bytes))
        (o.set_max_readers 128)

  -- The environment, opened where that could be done.
  unfoldable pub set_up : Bytes → o.Handle × Option Error
  unfolding configured
  set_up data_dir = if_no_error configured (o.open_env data_dir perform_flags file_perm)

  -- The client or the error, and what became of the environment, if there is one.
  unfoldable pub new_client : Bytes → Reply (Client l) × Option o.Handle
  unfolding set_up
  new_client data_dir =
      on_error (o.mkdir_all data_dir dir_perm) (λ e. (err e, none))
        (let (h, e) = set_up data_dir in
          on_error e (λ fault. (err fault, some (o.close_env h)))
            (ok (fresh_client (o.contents h)), some h))

  -- `Close`, which leaves the client as it is.
  unfoldable pub close : o.Handle → o.Handle
  close h = o.close_env h
