-- ===== src/Storage/Sets/Removal.antt =====
-- SREM on a reliable environment, against lists without repetitions.
use keyp.Base.{◌≡◌, not, ◌&&◌}
use keyp.Base.{List}
use keyp.Bytes.{Bytes}
use keyp.Lmdb.{Lmdb}
use keyp.Storage.Sets.{member}

-- What SREM leaves of the members `ms`: those that are not given.
pub record Removed (ms members ms' : List Bytes) : Type 0 where
  pub left_members : (k : Bytes) → member k ms' ≡ (member k ms && not (member k members))
