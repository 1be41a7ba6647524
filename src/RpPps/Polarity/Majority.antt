-- ===== src/RpPps/Polarity/Majority.antt =====
-- The probe over a window of samples.
use pico_gnss.Base.{
  ℕ, ◌+◌, ◌*◌, ◌/◌, ◌^◌, ◌<◌, ◌≤◌, ◌≡◌, ◌↔◌, arith, Bool, true, false, List, [], ◌∷◌, length, some,
  if◌then◌else◌,
}
use native.Mathlib.Nat.{le-div_iff_mul-le}
use pico_gnss.RpPps.Polarity.{active_low, PolarityProbe, new, sample, duty_percent, polarity}

pub sample_all : PolarityProbe → List Bool → PolarityProbe
sample_all p [] = p
sample_all p (b ∷ bs) = sample_all (sample p b) bs

-- How many of the samples are high.
pub highs : List Bool → ℕ
highs [] = 0
highs (b ∷ bs) = (if b then 1 else 0) + highs bs

highs-le : (bs : List Bool) → highs bs ≤ length bs
unfolding highs
highs-le [] = omega arith
highs-le (true ∷ bs) = omega (arith, highs-le bs)
highs-le (false ∷ bs) = omega (arith, highs-le bs)

-- Below the saturation the probe counts.
counted :
    (bs : List Bool) (p : PolarityProbe)
    → p.high ≤ p.total
    → p.total + length bs < 2 ^ 32
    → ((sample_all p bs).high ≡ p.high + highs bs) × ((sample_all p bs).total ≡ p.total + length bs)
unfolding sample_all highs sample
counted [] p h k = omega arith
counted (true ∷ bs) p h k = omega (arith, counted bs (sample p true) (omega arith) (omega arith))
counted (false ∷ bs) p h k = omega (arith, counted bs (sample p false) (omega arith) (omega arith))

percent_iff : (h t : ℕ) → 0 < t → (50 < h * 100 / t) ↔ (51 * t ≤ h * 100)
percent_iff h t k = le-div_iff_mul-le {k = t} {x = 51} {y = h * 100} k

-- For a window of 1 to 42,949,672 samples, the probe names the pin active low exactly when at
-- least 51 percent of the samples are high.
pub polarity_iff :
    (bs : List Bool)
    → 1 ≤ length bs
    → length bs ≤ 42_949_672
    → (polarity (sample_all new bs) ≡ some active_low) ↔ (51 * length bs ≤ highs bs * 100)
unfolding polarity duty_percent
polarity_iff bs some_sample few =
    let (high, total) = counted bs new (omega arith) (omega arith) in
    let percent = percent_iff (highs bs) (length bs) some_sample in
    (
      λ h. ground (arith, high, total, highs-le bs, percent),
      λ h. ground (arith, high, total, highs-le bs, percent),
    )
