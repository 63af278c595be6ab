-- ===== src/Bytes.antt =====
-- Byte slices as lists of numbers, with what the storage layer uses of Go's `encoding/binary`,
-- slicing and string comparison (internal/storage/utils.go).
use keyp.Base.{ℕ, zero, suc, ◌+◌, ◌-◌, ◌*◌, ◌/◌, ◌%◌, ◌^◌, ◌<◌, ◌≡◌, refl, ap, arith}
use keyp.Base.{Bool, true, false, ◌&&◌, ◌↔◌, List, [], ◌∷◌, ◌++◌}
use keyp.Base.{leb, ◌==◌, length, take, drop, All}
use keyp.Base.{drop-append, take-append, sym}
use native.Mathlib.Nat.{pow-succ'}
use Prim.Native.Char.{code}
use Prim.Native.String.{String}

abbrev pub Bytes : Type 0
Bytes = List ℕ

-- The bytes of an ASCII text.
abbrev pub codes : String → Bytes
codes String.[] = []
codes (String.◌∷◌ c s) = code c ∷ codes s

abbrev pub IsByte : ℕ → Type 0
IsByte b = b < 256

-- `binary.LittleEndian.PutUint64` and `PutUint32`: the `k` low bytes of `n`, lowest first.
pub to_le : ℕ → ℕ → Bytes
to_le zero n = []
to_le (suc k) n = n % 256 ∷ to_le k (n / 256)

-- `binary.LittleEndian.Uint64` and `Uint32` of a slice of eight or four bytes.
pub from_le : Bytes → ℕ
from_le [] = 0
from_le (b ∷ bs) = b + 256 * from_le bs

pub length-to_le : (k n : ℕ) → length (to_le k n) ≡ k
unfolding to_le
length-to_le zero n = refl
length-to_le (suc k) n = ap suc (length-to_le k (n / 256))

pub to_le-bytes : (k n : ℕ) → All IsByte (to_le k n)
unfolding to_le
to_le-bytes zero n = tt
to_le-bytes (suc k) n = (omega arith, to_le-bytes k (n / 256))

pub from_le-to_le : (k n : ℕ) → n < 256 ^ k → from_le (to_le k n) ≡ n
unfolding to_le from_le
from_le-to_le zero n h = omega arith
from_le-to_le (suc k) n h =
    omega (arith, from_le-to_le k (n / 256) (omega (arith, pow-succ' 256 k)))

pub from_le-lt : (bs : Bytes) → All IsByte bs → from_le bs < 256 ^ length bs
unfolding from_le
from_le-lt [] h = omega arith
from_le-lt (b ∷ bs) h = omega (arith, h.0, from_le-lt bs h.1, pow-succ' 256 (length bs))

pub to_le-from_le : (bs : Bytes) → All IsByte bs → to_le (length bs) (from_le bs) ≡ bs
unfolding to_le from_le
to_le-from_le [] h = refl
to_le-from_le (b ∷ bs) h =
    let low : (b + 256 * from_le bs) % 256 ≡ b = omega (arith, h.0) in
    let high : (b + 256 * from_le bs) / 256 ≡ from_le bs = omega (arith, h.0) in
    rw (low, high) (ap (λ r. b ∷ r) (to_le-from_le bs h.1))

-- `offset+size > len(data)` is false: the bounds test before every read.
unfoldable pub has_room : Bytes → ℕ → ℕ → Bool
has_room bytes offset size = leb (offset + size) (length bytes)

-- `binary.LittleEndian.Uint32(data[offset:])` and `Uint64(data[offset:])`.
unfoldable pub u32_at : Bytes → ℕ → ℕ
u32_at bytes offset = from_le (take 4 (drop offset bytes))

unfoldable pub u64_at : Bytes → ℕ → ℕ
u64_at bytes offset = from_le (take 8 (drop offset bytes))

-- `data[low:high]`
unfoldable pub slice : Bytes → ℕ → ℕ → Bytes
slice bytes low high = take (high - low) (drop low bytes)

-- `==` on strings.
unfoldable pub bytes_eq : Bytes → Bytes → Bool
bytes_eq [] [] = true
bytes_eq [] (b ∷ bs) = false
bytes_eq (a ∷ as') [] = false
bytes_eq (a ∷ as') (b ∷ bs) = a == b && bytes_eq as' bs

pub bytes_eq_iff : (x y : Bytes) → (bytes_eq x y ≡ true) ↔ (x ≡ y)
unfolding bytes_eq
bytes_eq_iff [] [] = (λ _. refl, λ _. refl)
bytes_eq_iff [] (b ∷ bs) = ground arith
bytes_eq_iff (a ∷ as') [] = ground arith
bytes_eq_iff (a ∷ as') (b ∷ bs) = ground (arith, bytes_eq_iff as' bs)

pub bytes_eq_refl : (x : Bytes) → bytes_eq x x ≡ true
bytes_eq_refl x = (bytes_eq_iff x x).1 refl

-- Reads that start where a known prefix ends.
pub u32_at-append :
    (front : Bytes) (n : ℕ) (rest : Bytes)
    → n < 2 ^ 32
    → u32_at (front ++ (to_le 4 n ++ rest)) (length front) ≡ n
unfolding u32_at
u32_at-append front n rest h = rw drop-append (
    rw (ap (λ k. take k (to_le 4 n ++ rest)) (sym (length-to_le 4 n)))
      (rw take-append (from_le-to_le 4 n h)))

pub u64_at-append :
    (front : Bytes) (n : ℕ) (rest : Bytes)
    → n < 2 ^ 64
    → u64_at (front ++ (to_le 8 n ++ rest)) (length front) ≡ n
unfolding u64_at
u64_at-append front n rest h = rw drop-append (
    rw (ap (λ k. take k (to_le 8 n ++ rest)) (sym (length-to_le 8 n)))
      (rw take-append (from_le-to_le 8 n h)))

pub slice-append :
    (front middle rest : Bytes)
    → slice (front ++ (middle ++ rest)) (length front) (length front + length middle) ≡ middle
unfolding slice
slice-append front middle rest = rw drop-append (
    rw (let e : length front + length middle - length front ≡ length middle = omega arith in e)
      (take-append middle rest))
