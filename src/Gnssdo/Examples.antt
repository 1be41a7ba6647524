-- ===== src/Gnssdo/Examples.antt =====
-- Concrete runs of gnssdo, and its theorems at concrete inputs.
mod Servo
mod Clock
use pico_gnss.Base.{◌≤◌, ◌*◌, ◌≡◌, refl, arith, some}
use pico_gnss.Base.{List, [], ◌∷◌}
use pico_gnss.Base.Int.{pos, negsuc, abs_ℕ, ◌-ℤ◌, ◌*ℤ◌}
use pico_gnss.Gnssdo.QuantisationError.Rounding.{
  Edge, corrected, measured, last_qerr, corrected_near,
}
use pico_gnss.Gnssdo.Tracker.{PpsTracker, default_config, irregular, classify, event}
use pico_gnss.Gnssdo.Tracker.Pulses.{IsPulse, event-eq}

abbrev running : PpsTracker
running = record { config = default_config; last_us = some 4_000_000; count = 4 }

-- Two pulses lost, and 70 ms late.
third-IsPulse : IsPulse default_config 2 3_070_000
third-IsPulse = record {
  nominal_fits = omega arith;
  interval_fits = omega arith;
  tolerance_fits = omega arith;
  missed_fits = omega arith;
  nearest = omega arith;
  within = omega arith;
}

jitter : classify default_config 1_060_000 ≡ irregular 1_060_000 0
unfolding classify
jitter = refl

abbrev sawtooth : List Edge
sawtooth =
    record { interval_ns = pos 1_000_000_008; qerr_ps = pos 8_300 }
    ∷ record { interval_ns = pos 999_999_987; qerr_ps = negsuc 4_699 }
    ∷ []
