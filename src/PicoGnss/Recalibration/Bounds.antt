-- ===== src/PicoGnss/Recalibration/Bounds.antt =====
-- A new offset is close to the old one: no measurement moves it by more than the gate of a sample.
use pico_gnss.Base.{
  ℕ, ◌+◌, ◌^◌, ◌<◌, ◌≤◌, ◌≡◌, ◌⊎◌, inl, inr, refl, arith, Bool, Bool-cases, true, false, subst, sym,
  List, [], ◌∷◌, take, All, if◌then◌else◌,
}
use pico_gnss.Base.Int.{
  ltb_ℤ, ℤ, pos, negsuc, ◌+ℤ◌, ◌≤ℤ◌, abs_ℕ, to_i32, to_u32, leb_ℤ, +ℤ_parts, -ℤ_parts, rem_euclid,
}
use pico_gnss.RpPps.Capture.{wrapping_sub}
use pico_gnss.RpPps.Phase.{calibrate_loopback_offset}
use pico_gnss.PicoGnss.Recalibration.{
  RecalRound, lag, drift, collect, lowest, highest, spread, evaluate, recal_k,
}
use pico_gnss.PicoGnss.Recalibration.Means.{mean, mean_range}

-- A sample that the gate keeps.
abbrev pub IsNear : ℕ → ℕ × ℕ → Type 0
IsNear k pair = abs_ℕ (drift k pair) ≤ 64

collect-IsNear : (k i : ℕ) (rounds : List RecalRound) → All (IsNear k) (collect k i rounds)
unfolding collect
collect-IsNear k i [] = tt
collect-IsNear k i (r ∷ rounds) = ground (arith, collect-IsNear k (i + 1) rounds)

to_u32_pos : (n : ℕ) → n < 2 ^ 31 → to_u32 (pos n) ≡ n
unfolding rem_euclid
to_u32_pos n h = omega arith

to_u32_neg : (n : ℕ) → n < 2 ^ 31 → to_u32 (negsuc n) + n + 1 ≡ 2 ^ 32
unfolding rem_euclid
to_u32_neg n h = omega arith

-- The arithmetic of the step, in words of 32 bits.
mean_near :
    (k low high : ℕ) (m : ℤ)
    → k < 2 ^ 32
    → low < 2 ^ 32
    → high < 2 ^ 32
    → abs_ℕ (to_i32 (wrapping_sub low k)) ≤ 64
    → abs_ℕ (to_i32 (wrapping_sub high k)) ≤ 64
    → to_i32 low ≤ℤ m
    → m ≤ℤ to_i32 high
    → to_i32 high ≤ℤ to_i32 low +ℤ pos 2
    → abs_ℕ (to_i32 (wrapping_sub (to_u32 m) k)) ≤ 64
mean_near k low high (pos n) hk hl hh nl nh a b c =
    ground (arith, to_u32_pos n (ground arith), +ℤ_parts (to_i32 low) (pos 2))
mean_near k low high (negsuc n) hk hl hh nl nh a b c =
    ground (arith, to_u32_neg n (ground arith), +ℤ_parts (to_i32 low) (pos 2))

-- A sample within the gate whose lag is `d`.
abbrev HasSample : ℕ → ℤ → Type 0
HasSample k d = (pair : ℕ × ℕ) × IsNear k pair × (lag pair ≡ d)

either :
    (k : ℕ) (x : ℤ) (pair : ℕ × ℕ) (b : Bool)
    → HasSample k x
    → IsNear k pair
    → HasSample k (if b then x else lag pair)
either k x pair true h near = h
either k x pair false h near = (pair, near, refl)

lowest_sample :
    (k : ℕ) (lo : ℤ) (samples : List (ℕ × ℕ))
    → HasSample k lo
    → All (IsNear k) samples
    → HasSample k (lowest lo samples)
unfolding lowest
lowest_sample k lo [] h near = h
lowest_sample k lo (pair ∷ samples) h (n, near) =
    lowest_sample k (if leb_ℤ lo (lag pair) then lo else lag pair) samples
      (either k lo pair (leb_ℤ lo (lag pair)) h n) near

highest_sample :
    (k : ℕ) (hi : ℤ) (samples : List (ℕ × ℕ))
    → HasSample k hi
    → All (IsNear k) samples
    → HasSample k (highest hi samples)
unfolding highest
highest_sample k hi [] h near = h
highest_sample k hi (pair ∷ samples) h (n, near) =
    highest_sample k (if leb_ℤ (lag pair) hi then hi else lag pair) samples
      (either k hi pair (leb_ℤ (lag pair) hi) h n) near

lowest_all :
    (lo : ℤ) (samples : List (ℕ × ℕ))
    → (lowest lo samples ≤ℤ lo) × All (λ pair. lowest lo samples ≤ℤ lag pair) samples
unfolding lowest
lowest_all lo [] = (omega arith, tt)
lowest_all lo (pair ∷ samples) =
    let (first, rest) = lowest_all (if leb_ℤ lo (lag pair) then lo else lag pair) samples in
    (ground (arith, first), (ground (arith, first), rest))

highest_all :
    (hi : ℤ) (samples : List (ℕ × ℕ))
    → (hi ≤ℤ highest hi samples) × All (λ pair. lag pair ≤ℤ highest hi samples) samples
unfolding highest
highest_all hi [] = (omega arith, tt)
highest_all hi (pair ∷ samples) =
    let (first, rest) = highest_all (if leb_ℤ (lag pair) hi then hi else lag pair) samples in
    (ground (arith, first), (ground (arith, first), rest))

-- An offset within the gate of the old one.
abbrev IsClose : ℕ → ℕ → Type 0
IsClose k v = abs_ℕ (to_i32 (wrapping_sub v k)) ≤ 64

IsClose-self : (k : ℕ) → k < 2 ^ 32 → IsClose k k
IsClose-self k h = ground arith

evaluate_wide :
    (k : ℕ) (samples : List (ℕ × ℕ))
    → ltb_ℤ (pos 2) (spread samples) ≡ true
    → evaluate k samples ≡ k
unfolding evaluate
evaluate_wide k samples wide = ground arith

evaluate_tight :
    (k : ℕ) (samples : List (ℕ × ℕ))
    → (evaluate k samples ≡ k) ⊎ (evaluate k samples ≡ to_u32 (mean samples))
unfolding evaluate calibrate_loopback_offset
evaluate_tight k samples = ground arith

-- `i32::MAX` and `i32::MIN` are no narrower than the first lag.
first_low :
    (k : ℕ) (pair : ℕ × ℕ)
    → IsNear k pair
    → HasSample k (if leb_ℤ (pos 2_147_483_647) (lag pair) then pos 2_147_483_647 else lag pair)
first_low k pair near = (pair, near, ground arith)

first_high :
    (k : ℕ) (pair : ℕ × ℕ)
    → IsNear k pair
    → HasSample k
        (if leb_ℤ (lag pair) (negsuc 2_147_483_647) then negsuc 2_147_483_647 else lag pair)
first_high k pair near = (pair, near, ground arith)

mean-IsClose :
    (k : ℕ) (pair : ℕ × ℕ) (samples : List (ℕ × ℕ))
    → k < 2 ^ 32
    → All (IsNear k) (pair ∷ samples)
    → ltb_ℤ (pos 2) (spread (pair ∷ samples)) ≡ false
    → IsClose k (to_u32 (mean (pair ∷ samples)))
mean-IsClose k pair samples fits near tight =
    let lo = lowest (pos 2_147_483_647) (pair ∷ samples) in
    let hi = highest (negsuc 2_147_483_647) (pair ∷ samples) in
    let (a, near_a, low) : HasSample k lo =
      unfold lowest in lowest_sample k _ samples (first_low k pair near.0) near.1 in
    let (b, near_b, high) : HasSample k hi =
      unfold highest in highest_sample k _ samples (first_high k pair near.0) near.1 in
    let (above, below) =
      mean_range lo hi pair samples (lowest_all (pos 2_147_483_647) (pair ∷ samples)).1
        (highest_all (negsuc 2_147_483_647) (pair ∷ samples)).1 in
    let narrow : hi ≤ℤ lo +ℤ pos 2 =
      unfold spread in ground (arith, tight, -ℤ_parts hi lo, +ℤ_parts lo (pos 2)) in
    mean_near k (wrapping_sub a.0 a.1) (wrapping_sub b.0 b.1) (mean (pair ∷ samples)) fits
      (omega arith) (omega arith) near_a near_b (rw low above) (rw high below)
      (rw (low, high) narrow)

evaluate_near :
    (k : ℕ) (samples : List (ℕ × ℕ))
    → k < 2 ^ 32
    → All (IsNear k) samples
    → IsClose k (evaluate k samples)
evaluate_near k [] fits near = unfold evaluate in IsClose-self k fits
evaluate_near k (pair ∷ samples) fits near =
    elim (Bool-cases (ltb_ℤ (pos 2) (spread (pair ∷ samples)))) [
      | inl wide ↦
          subst (IsClose k) (sym (evaluate_wide k (pair ∷ samples) wide)) (IsClose-self k fits)
      | inr tight ↦ elim (evaluate_tight k (pair ∷ samples)) [
        | inl same ↦ subst (IsClose k) (sym same) (IsClose-self k fits)
        | inr new ↦ subst (IsClose k) (sym new) (mean-IsClose k pair samples fits near tight)
      ]
    ]

-- For an offset below 2^32 and any rounds, the offset that `recal_k` returns is within the gate
-- of a sample, 64 ticks, of the old one.
pub recal_k_near :
    (k : ℕ) (rounds : List RecalRound)
    → k < 2 ^ 32
    → abs_ℕ (to_i32 (wrapping_sub (recal_k k rounds) k)) ≤ 64
unfolding recal_k
recal_k_near k rounds fits =
    evaluate_near k (collect k 0 (take 6 rounds)) fits (collect-IsNear k 0 (take 6 rounds))
