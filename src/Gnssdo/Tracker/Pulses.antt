-- ===== src/Gnssdo/Tracker/Pulses.antt =====
-- Which pulses the tracker counts as missed.
use pico_gnss.Base.{ℕ, ◌+◌, ◌*◌, ◌/◌, ◌%◌, ◌^◌, ◌<◌, ◌≤◌, ◌≡◌, arith, some, ◌==◌, if◌then◌else◌}
use native.Mathlib.Nat.{le-div_iff_mul-le, div-lt_iff_lt-mul}
use pico_gnss.Gnssdo.Tracker.{
  PpsTrackerConfig, locked, irregular, PpsTracker, abs_diff, classify, event,
}

-- A quotient is the number of whole divisors.
quotient : (x k t : ℕ) → 0 < t → k * t ≤ x → x < (k + 1) * t → x / t ≡ k
quotient x k t h lo hi = omega (
  arith,
  (le-div_iff_mul-le {k = t} {x = k} {y = x} h).1 lo,
  (div-lt_iff_lt-mul {k = t} {x = x} {y = k + 1} h).1 hi,
)

next_multiple : (k t : ℕ) → (k + 1) * t ≡ k * t + t
next_multiple k t = grind arith

-- An interval within the tolerance of a multiple of the nominal one, and nearer to it than to the
-- next multiple.
pub record IsPulse (config : PpsTrackerConfig) (missed interval : ℕ) : Type 0 where
  pub nominal_fits : (1 ≤ config.nominal_us) × (config.nominal_us < 2 ^ 62)
  pub interval_fits : interval < 2 ^ 62
  pub tolerance_fits : config.tolerance_us * (missed + 1) < 2 ^ 64
  pub missed_fits : missed < 2 ^ 32
  pub nearest : 2 * abs_diff interval ((missed + 1) * config.nominal_us) < config.nominal_us
  pub within :
      abs_diff interval ((missed + 1) * config.nominal_us) ≤ config.tolerance_us * (missed + 1)

nearest_multiple :
    (config : PpsTrackerConfig) (missed interval : ℕ)
    → IsPulse config missed interval
    → (interval + config.nominal_us / 2) % 2 ^ 64 / config.nominal_us ≡ missed + 1
nearest_multiple config missed interval h =
    quotient _ (missed + 1) config.nominal_us h.nominal_fits.0
      (omega (arith, h.nearest, h.interval_fits, h.nominal_fits))
      (omega (
        arith,
        h.nearest,
        h.interval_fits,
        h.nominal_fits,
        next_multiple (missed + 1) config.nominal_us,
      ))

-- For a nominal interval from 1 to 2^62 - 1 and an interval below 2^62 that is nearest to the
-- multiple behind `missed` lost pulses and within the tolerance of it, the event is `locked`
-- without lost pulses and `irregular` with their number otherwise.
pub event-eq :
    (self : PpsTracker) (prev missed interval : ℕ)
    → self.last_us ≡ some prev
    → IsPulse self.config missed interval
    → event self (prev + interval)
      ≡ (if missed == 0 then locked interval else irregular interval missed)
unfolding event classify
event-eq self prev missed interval e h = ground (
  arith,
  e,
  nearest_multiple self.config missed interval h,
  h.nearest,
  h.within,
  h.tolerance_fits,
  h.missed_fits,
  h.interval_fits,
  h.nominal_fits,
)
