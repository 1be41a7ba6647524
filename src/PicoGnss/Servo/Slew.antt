-- ===== src/PicoGnss/Servo/Slew.antt =====
-- The offset that is in use reaches the one that was measured.
use pico_gnss.Base.{ℕ, zero, suc, ◌+◌, ◌-◌, ◌*◌, ◌^◌, ◌<◌, ◌≤◌, ◌≡◌, ◌%◌, arith, min}
use native.Mathlib.Decide.{dec_lt}
use pico_gnss.Base.Int.Scale.{clamp_about, clamp_about_parts}
use pico_gnss.Base.Int.{ℤ, pos, negsuc, pos_part, neg_part, ◌+ℤ◌, abs_ℕ, to_i32, to_u32, rem_euclid}
use pico_gnss.RpPps.Capture.{wrapping_sub}
use pico_gnss.PicoGnss.Servo.{slew}

-- The distance of two words of 32 bits.
abbrev pub distance : ℕ → ℕ → ℕ
distance a b = abs_ℕ (to_i32 (wrapping_sub a b))

-- The word of a sum.
to_u32-add :
    (k : ℕ) (c : ℤ)
    → neg_part c ≤ 2
    → to_u32 (pos k +ℤ c) ≡ (k + 2 ^ 32 + pos_part c - neg_part c) % 2 ^ 32
unfolding ◌+ℤ◌ rem_euclid
to_u32-add k (pos n) h = ground arith
to_u32-add k (negsuc n) h = ground arith

-- The step by cases: up to two ticks forward, or up to two back.
slew_forward :
    (k target : ℕ)
    → k < 2 ^ 32
    → wrapping_sub target k < 2 ^ 31
    → slew k target ≡ (k + min (wrapping_sub target k) 2) % 2 ^ 32
unfolding slew rem_euclid
slew_forward k target hk h =
    let d = to_i32 (wrapping_sub target k) in
    let c = clamp_about d 2 in ground (arith, h, hk, clamp_about_parts d 2, to_u32-add k c)

slew_back :
    (k target : ℕ)
    → k < 2 ^ 32
    → 2 ^ 31 ≤ wrapping_sub target k
    → slew k target ≡ (k + 2 ^ 32 - min (2 ^ 32 - wrapping_sub target k) 2) % 2 ^ 32
unfolding slew rem_euclid
slew_back k target hk h =
    let d = to_i32 (wrapping_sub target k) in
    let c = clamp_about d 2 in ground (arith, h, hk, clamp_about_parts d 2, to_u32-add k c)

slew-lt : (k target : ℕ) → k < 2 ^ 32 → slew k target < 2 ^ 32
slew-lt k target h = elim (dec_lt (wrapping_sub target k) (2 ^ 31)) [
  | yes small ↦ omega (arith, slew_forward k target h small)
  | no large ↦ omega (arith, slew_back k target h (omega arith))
]

-- A step comes closer by two, or arrives.
pub slew_closer :
    (k target : ℕ)
    → k < 2 ^ 32
    → target < 2 ^ 32
    → distance target (slew k target) ≡ distance target k - 2
slew_closer k target hk ht = elim (dec_lt (wrapping_sub target k) (2 ^ 31)) [
  | yes small ↦ ground (arith, slew_forward k target hk small)
  | no large ↦ ground (arith, slew_back k target hk (omega arith))
]

-- A step moves the offset by at most two ticks.
slew_near : (k target : ℕ) → k < 2 ^ 32 → target < 2 ^ 32 → distance (slew k target) k ≤ 2
slew_near k target hk ht = elim (dec_lt (wrapping_sub target k) (2 ^ 31)) [
  | yes small ↦ ground (arith, slew_forward k target hk small)
  | no large ↦ ground (arith, slew_back k target hk (omega arith))
]

-- The offset after a number of edges.
unfoldable pub slews : ℕ → ℕ → ℕ → ℕ
slews zero k target = k
slews (suc n) k target = slew (slews n k target) target

slews-lt : (n k target : ℕ) → k < 2 ^ 32 → slews n k target < 2 ^ 32
unfolding slews
slews-lt zero k target hk = hk
slews-lt (suc n) k target hk = slew-lt (slews n k target) target (slews-lt n k target hk)

slews_closer :
    (n k target : ℕ)
    → k < 2 ^ 32
    → target < 2 ^ 32
    → distance target (slews n k target) ≡ distance target k - 2 * n
unfolding slews
slews_closer zero k target hk ht = omega arith
slews_closer (suc n) k target hk ht = omega (
  arith,
  slew_closer (slews n k target) target (slews-lt n k target hk) ht,
  slews_closer n k target hk ht,
)

arrived : (k target : ℕ) → k < 2 ^ 32 → target < 2 ^ 32 → distance target k ≡ 0 → k ≡ target
arrived k target hk ht h = ground arith

-- For two words of 32 bits, an edge moves the offset in use by at most two ticks, after `m` edges
-- the offset is exactly `2 * m` ticks closer to the measured one, or there, and a number of edges
-- that is at least half the distance at the start brings it there.
pub slews_arrive :
    (m n k target : ℕ)
    → k < 2 ^ 32
    → target < 2 ^ 32
    → distance target k ≤ 2 * n
    → (distance (slews (suc m) k target) (slews m k target) ≤ 2)
      × (distance target (slews m k target) ≡ distance target k - 2 * m)
      × (slews n k target ≡ target)
unfolding slews
slews_arrive m n k target hk ht h = (
  slew_near (slews m k target) target (slews-lt m k target hk) ht,
  slews_closer m k target hk ht,
  arrived (slews n k target) target (slews-lt n k target hk) ht
      (omega (arith, h, slews_closer n k target hk ht)),
)
