-- ===== src/Storage/Bounds.antt =====
-- The bytes of a value are not trusted: what LRANGE, SMEMBERS and ZRANGE read from any bytes at all.
use keyp.Base.{ℕ, ◌+◌, ◌≤◌}
use keyp.Base.{List, [], ◌∷◌, length}
use keyp.Bytes.{Bytes}
use keyp.Domain.{Error}
use keyp.Lmdb.{Lmdb, Reply, ok, err}

-- The bytes that items take, each with `k` bytes in front.
unfoldable pub size_of : ℕ → List Bytes → ℕ
size_of k [] = 0
size_of k (x ∷ xs) = k + length x + size_of k xs

-- A header of eight bytes and the items stand in the bytes.
abbrev pub Fit : ℕ → Bytes → List Bytes → Type 0
Fit k bytes xs = 8 + size_of k xs ≤ length bytes

-- An answer is an error, or empty, or its items stand in the bytes.
pub data AnswerFits (k : ℕ) (bytes : Bytes) : Reply (List Bytes) → Type 0 where
  failed : {e : Error} → AnswerFits k bytes (err e)
  nothing : AnswerFits k bytes (ok [])
  items : {xs : List Bytes} → Fit k bytes xs → AnswerFits k bytes (ok xs)
