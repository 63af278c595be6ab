-- ===== src/Storage/Lists/Bounds.antt =====
-- The bounds of LRANGE and ZRANGE (the helpers adjust and clamp of utils.go): the part of a list that
-- a start and an inclusive stop name.
use keyp.Base.{ℕ, zero, suc, ◌+◌, ◌-◌, ◌^◌, ◌≤◌, ◌<◌, ◌≡◌, sym, ap, ◌∙◌, arith, Bool, true}
use keyp.Base.{
  List, [], ◌∷◌, length, take, drop, le→leb, lt→leb_false, take_all, take-nil, length-drop, min,
  ◌⊎◌, leb→le,
}
use keyp.Base.{leb, ◌&&◌, if◌then◌else◌, Bool-cases, inl, inr}
use keyp.Int64.{ℤ, pos, negsuc, of_ℤ, InRange, lt64}
use keyp.Storage.Lists.{is_selected, clamp_start, clamp_stop}

-- `low` to `high` as numbers.
pub within : ℕ → ℕ → ℕ → Bool
within low high i = leb low i && leb i high

pub is_selected_small :
    (low high i : ℕ)
    → low < 2 ^ 63
    → high < 2 ^ 63
    → i < 2 ^ 63
    → is_selected low high i ≡ within low high i
unfolding is_selected within
is_selected_small low high i bl bh bi = ground arith

-- The items at the positions `low` to `high`, counted from `i` on.
unfoldable pub select {ℓ} : {A : Type ℓ} → ℕ → ℕ → ℕ → List A → List A
select i low high [] = []
select i low high (x ∷ xs) =
    let rest = select (i + 1) low high xs in if within low high i then x ∷ rest else rest

select_from {ℓ} :
    {A : Type ℓ} (i low high : ℕ) (xs : List A)
    → low ≤ i
    → select i low high xs ≡ take (suc high - i) xs
unfolding select within
select_from i low high [] h = sym (take-nil _)
select_from i low high (x ∷ xs) h = elim (Bool-cases (leb i high)) [
  | inl inside ↦
      let steps : suc high - i ≡ suc (suc high - (i + 1)) = ground arith in
      rw (steps, le→leb low i h, inside)
        (ap (λ r. x ∷ r) (select_from (i + 1) low high xs (omega arith)))
  | inr outside ↦
      let none_left : suc high - i ≡ 0 = ground arith in
      let none_later : suc high - (i + 1) ≡ 0 = ground arith in
      rw (none_left, le→leb low i h, outside)
        (select_from (i + 1) low high xs (omega arith) ∙ ap (λ k. take k xs) none_later)
]

select-take {ℓ} :
    {A : Type ℓ} (d i high : ℕ) (xs : List A)
    → select i (i + d) high xs ≡ take (suc high - (i + d)) (drop d xs)
unfolding select within
select-take zero i high xs =
    let e : i + 0 ≡ i = omega arith in rw e (select_from i i high xs (omega arith))
select-take (suc d) i high [] = sym (take-nil _)
select-take (suc d) i high (x ∷ xs) =
    let e : i + suc d ≡ i + 1 + d = omega arith in
    rw (lt→leb_false (i + suc d) i (omega arith), e) (select-take d (i + 1) high xs)

pub select_from_zero {ℓ} :
    {A : Type ℓ} (low high : ℕ) (xs : List A)
    → select 0 low high xs ≡ take (suc high - low) (drop low xs)
select_from_zero low high xs =
    let e : 0 + low ≡ low = omega arith in rw e at (select-take low 0 high xs)

-- Two counts that pass the end take the same.
take_past {ℓ} :
    {A : Type ℓ} (m n : ℕ) (xs : List A) → length xs ≤ m → length xs ≤ n → take m xs ≡ take n xs
take_past m n xs hm hn = take_all m xs hm ∙ sym (take_all n xs hn)

-- The part of a list that a start and an inclusive stop name, negative numbers from the end.
abbrev pub range_start : ℕ → ℤ → ℕ
range_start n (pos a) = a
range_start n (negsuc a) = n - suc a

abbrev pub range_end : ℕ → ℤ → ℕ
range_end n (pos b) = suc b
range_end n (negsuc b) = n - b

unfoldable pub range {ℓ} : {A : Type ℓ} → List A → ℤ → ℤ → List A
range xs start stop =
    take (range_end (length xs) stop - range_start (length xs) start)
      (drop (range_start (length xs) start) xs)

clamp_start-of_ℤ :
    (n : ℕ) (z : ℤ) → n < 2 ^ 63 → InRange z → clamp_start (of_ℤ z) n ≡ range_start n z
unfolding clamp_start
clamp_start-of_ℤ n (pos a) hn hz = ground arith
clamp_start-of_ℤ n (negsuc a) hn hz = ground arith

-- The adjusted stop is negative, and then nothing is named, or it is the last position named.
clamp_stop_cases :
    (n : ℕ) (z : ℤ)
    → 0 < n
    → n < 2 ^ 63
    → InRange z
    → ((range_end n z ≡ 0) × (2 ^ 63 ≤ clamp_stop (of_ℤ z) n) × (clamp_stop (of_ℤ z) n < 2 ^ 64))
      ⊎ ((clamp_stop (of_ℤ z) n < 2 ^ 63) × (suc (clamp_stop (of_ℤ z) n) ≡ min (range_end n z) n))
unfolding clamp_stop
clamp_stop_cases n (pos b) h0 hn hz = ground arith
clamp_stop_cases n (negsuc b) h0 hn hz = ground arith

take-min {ℓ} :
    {A : Type ℓ} (e s : ℕ) (xs : List A)
    → take (min e (length xs) - s) (drop s xs) ≡ take (e - s) (drop s xs)
take-min e s xs = elim (Bool-cases (leb e (length xs))) [
  | inl fits ↦
      let same : min e (length xs) - s ≡ e - s = omega (arith, leb→le _ _ fits) in
      ap (λ k. take k (drop s xs)) same
  | inr past ↦
      let past' : length xs ≤ e = ground arith in
      take_past _ _ (drop s xs) (omega (arith, length-drop s xs)) (omega (arith, length-drop s xs))
]

range_start-lt : (n : ℕ) (z : ℤ) → n < 2 ^ 63 → InRange z → range_start n z < 2 ^ 63
range_start-lt n (pos a) hn hz = hz
range_start-lt n (negsuc a) hn hz = omega arith

-- What a loop over the clamped bounds answers, where it takes what lies between two numbers.
pub clamped_range {ℓ κ} :
    {A : Type ℓ} {B : Type κ} (wrap : List A → B) (loop : ℕ → ℕ → B) (xs : List A) (start stop : ℤ)
    → 0 < length xs
    → length xs < 2 ^ 63
    → InRange start
    → InRange stop
    → ((low high : ℕ)
        → low < 2 ^ 63
        → high < 2 ^ 63
        → loop low high ≡ wrap (take (suc high - low) (drop low xs)))
    → (if lt64 (clamp_stop (of_ℤ stop) (length xs)) (clamp_start (of_ℤ start) (length xs))
        then wrap []
        else loop (clamp_start (of_ℤ start) (length xs)) (clamp_stop (of_ℤ stop) (length xs)))
      ≡ wrap (range xs start stop)
unfolding range
clamped_range wrap loop xs start stop h0 hn hs he between =
    let n : ℕ = length xs in
    let low : ℕ = range_start n start in
    let low_small : low < 2 ^ 63 = range_start-lt n start hn hs in
    rw (clamp_start-of_ℤ n start hn hs) (elim (clamp_stop_cases n stop h0 hn he) [
      | inl (no_end, negative, word) ↦
          let below : lt64 (clamp_stop (of_ℤ stop) n) low ≡ true = ground arith in
          let nothing : range_end n stop - low ≡ 0 = omega arith in rw (below, nothing)
      | inr (small, last) ↦ elim (Bool-cases (lt64 (clamp_stop (of_ℤ stop) n) low)) [
        | inl below ↦
            let nothing : min (range_end n stop) n - low ≡ 0 = ground arith in
            rw (below, sym (take-min (range_end n stop) low xs), nothing)
        | inr above ↦ rw above (
            between low (clamp_stop (of_ℤ stop) n) low_small small
            ∙ ap (λ k. wrap (take (k - low) (drop low xs))) last
            ∙ ap wrap (take-min (range_end n stop) low xs))
      ]
    ])
