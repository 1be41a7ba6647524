-- ===== src/PicoGnss/Recalibration/Means.antt =====
-- The mean that `calibrate_loopback_offset` takes, and that it lies among the lags.
use pico_gnss.Base.{ℕ, suc, ◌+◌, ◌/◌, ◌<◌, ◌≤◌, ◌≡◌, arith, List, [], ◌∷◌, length, All}
use native.Mathlib.Nat.{le-div_iff_mul-le, div-le_of_le-mul, mul_comm}
use pico_gnss.Base.Int.{ℤ, pos, negsuc, ◌+ℤ◌, ◌*ℤ◌, ◌≤ℤ◌, ◌/ℤ◌, +ℤ_parts, *ℤ_parts}
use pico_gnss.RpPps.Phase.{sum_lags}
use pico_gnss.PicoGnss.Recalibration.{lag}

-- The mean of numbers in a range is in the range.
mean_above : (sum lo : ℤ) (n : ℕ) → 0 < n → lo *ℤ n ≤ℤ sum → lo ≤ℤ sum /ℤ n
unfolding ◌/ℤ◌
mean_above (pos t) (pos l) n h low =
    let le : l ≤ t / n = (le-div_iff_mul-le h).1 (omega (arith, low, *ℤ_parts (pos l) n)) in
    omega (arith, le)
mean_above (pos t) (negsuc l) n h low = omega arith
mean_above (negsuc t) (pos l) n h low = absurd (omega (arith, low, *ℤ_parts (pos l) n))
mean_above (negsuc t) (negsuc l) n h low =
    let le : suc t / n ≤ suc l =
      div-le_of_le-mul n (omega (arith, low, *ℤ_parts (negsuc l) n, mul_comm n (suc l))) in
    ground arith

mean_below : (sum hi : ℤ) (n : ℕ) → 0 < n → sum ≤ℤ hi *ℤ n → sum /ℤ n ≤ℤ hi
unfolding ◌/ℤ◌
mean_below (pos t) (pos u) n h high =
    let le : t / n ≤ u =
      div-le_of_le-mul n (omega (arith, high, *ℤ_parts (pos u) n, mul_comm n u)) in
    omega (arith, le)
mean_below (pos t) (negsuc u) n h high = absurd (omega (arith, high, *ℤ_parts (negsuc u) n))
mean_below (negsuc t) (pos u) n h high = ground arith
mean_below (negsuc t) (negsuc u) n h high =
    let le : suc u ≤ suc t / n =
      (le-div_iff_mul-le h).1 (omega (arith, high, *ℤ_parts (negsuc u) n)) in
    ground arith

next_above : (lo sum x : ℤ) (n : ℕ) → lo *ℤ n ≤ℤ sum → lo ≤ℤ x → lo *ℤ (n + 1) ≤ℤ sum +ℤ x
next_above lo sum x n h le = omega (arith, *ℤ_parts lo n, *ℤ_parts lo (n + 1), +ℤ_parts sum x)

next_below : (hi sum x : ℤ) (n : ℕ) → sum ≤ℤ hi *ℤ n → x ≤ℤ hi → sum +ℤ x ≤ℤ hi *ℤ (n + 1)
next_below hi sum x n h le = omega (arith, *ℤ_parts hi n, *ℤ_parts hi (n + 1), +ℤ_parts sum x)

-- Bounds of the loop over the samples, with the sum and the number that it starts from.
sum_above :
    (lo sum : ℤ) (n : ℕ) (samples : List (ℕ × ℕ))
    → lo *ℤ n ≤ℤ sum
    → All (λ pair. lo ≤ℤ lag pair) samples
    → lo *ℤ (sum_lags samples sum n).1 ≤ℤ (sum_lags samples sum n).0
unfolding sum_lags
sum_above lo sum n [] h low = h
sum_above lo sum n (pair ∷ samples) h (le, low) =
    sum_above lo (sum +ℤ lag pair) (n + 1) samples (next_above lo sum (lag pair) n h le) low

sum_below :
    (hi sum : ℤ) (n : ℕ) (samples : List (ℕ × ℕ))
    → sum ≤ℤ hi *ℤ n
    → All (λ pair. lag pair ≤ℤ hi) samples
    → (sum_lags samples sum n).0 ≤ℤ hi *ℤ (sum_lags samples sum n).1
unfolding sum_lags
sum_below hi sum n [] h high = h
sum_below hi sum n (pair ∷ samples) h (le, high) =
    sum_below hi (sum +ℤ lag pair) (n + 1) samples (next_below hi sum (lag pair) n h le) high

count_lags :
    (sum : ℤ) (n : ℕ) (samples : List (ℕ × ℕ)) → (sum_lags samples sum n).1 ≡ n + length samples
unfolding sum_lags
count_lags sum n [] = omega arith
count_lags sum n (pair ∷ samples) = omega (arith, count_lags (sum +ℤ lag pair) (n + 1) samples)

-- The mean of the lags of the samples.
abbrev pub mean : List (ℕ × ℕ) → ℤ
mean samples = (sum_lags samples (pos 0) 0).0 /ℤ (sum_lags samples (pos 0) 0).1

pub mean_range :
    (lo hi : ℤ) (pair : ℕ × ℕ) (samples : List (ℕ × ℕ))
    → All (λ p. lo ≤ℤ lag p) (pair ∷ samples)
    → All (λ p. lag p ≤ℤ hi) (pair ∷ samples)
    → (lo ≤ℤ mean (pair ∷ samples)) × (mean (pair ∷ samples) ≤ℤ hi)
mean_range lo hi pair samples low high =
    let some_samples : 0 < (sum_lags (pair ∷ samples) (pos 0) 0).1 =
      omega (arith, count_lags (pos 0) 0 (pair ∷ samples)) in
    (
      mean_above _ lo _ some_samples
          (sum_above lo (pos 0) 0 (pair ∷ samples) (omega (arith, *ℤ_parts lo 0)) low),
      mean_below _ hi _ some_samples
          (sum_below hi (pos 0) 0 (pair ∷ samples) (omega (arith, *ℤ_parts hi 0)) high),
    )
