-- ===== src/Gnssdo/Examples/Clock.antt =====
-- The theorems about the disciplined clock at concrete inputs.
use pico_gnss.Base.{
  ℕ, ◌+◌, ◌*◌, ◌/◌, ◌≤◌, ◌≡◌, ◌⊎◌, ◌↔◌, refl, arith, false, List, [], ◌∷◌, All, some,
}
use pico_gnss.Base.Int.{ℤ, pos, abs_ℕ, ◌+ℤ◌, ◌-ℤ◌, ◌/ℤ◌, ◌≤ℤ◌, rem_euclid}
use pico_gnss.Base.Int.Scale.{◌×ℤ◌}
use pico_gnss.Gnssdo.Clock.{
  DisciplinedClock, default_clock, with_config, update_freq, update_epoch, applied, deviation,
}
use pico_gnss.Gnssdo.Clock.Gates.{Fits, IsAdmitted, left, update_freq_gates}
use pico_gnss.Gnssdo.Clock.Bounds.{level_bound, widest_gate}
use pico_gnss.Gnssdo.Clock.Reach.{Reach, start, next, pulse, epoch, Reach-bounds}
use pico_gnss.Gnssdo.Clock.Readout.{
  now_from_query_ns, now_from_capture_ns, drift_of, mppb_scale, capture_ns_for_unix_ns,
}
use pico_gnss.Gnssdo.Clock.Readout.Order.{now_mono}
use pico_gnss.Gnssdo.Clock.Readout.RoundTrip.{now-capture}
use pico_gnss.Gnssdo.Tracker.{default_config, record_edge, event, classify}
use pico_gnss.Gnssdo.Discipline.{Gnssdo, on_pps, discipline}
use pico_gnss.Gnssdo.Discipline.Policy.{SameEstimate, MayMove, run_pps, on_pps_estimate}
use pico_gnss.Gnssdo.Discipline.Recovery.{IsHeld, recovery_holds}

default-Fits : Fits default_clock
default-Fits = record {
  sane_fits = omega arith;
  converge_fits = omega arith;
  residual_fits = omega arith;
}

abbrev cold : DisciplinedClock
cold = with_config default_clock

-- A crystal that is 12.5 ppm fast, behind 20 samples.
abbrev warm : DisciplinedClock
warm = record cold {
  freq_mppb = pos 12_500_000;
  samples = 20;
  epoch_capture_ns = some 5_000_000_000;
  epoch_query_ns = some 5_000_000_000;
  epoch_unix_ns = some (pos 1_700_000_000_000_000_000);
}

update_freq_gates_example :
    (((update_freq warm (pos 1_000_012_600)).1 ≡ applied) ↔ IsAdmitted warm (pos 1_000_012_600))
    × (((update_freq warm (pos 1_000_012_600)).1 ≡ applied)
        ⊎ ((update_freq warm (pos 1_000_012_600)).0
            ≡ record warm { quarantine = left (update_freq warm (pos 1_000_012_600)).1 0 }))
update_freq_gates_example = update_freq_gates warm (pos 1_000_012_600) default-Fits

abbrev first_sample : DisciplinedClock
first_sample = (update_freq cold (pos 1_000_012_500)).0

first-Reach : Reach default_clock first_sample
first-Reach = next start (pulse cold (pos 1_000_012_500) (omega arith))

Reach-bounds_example :
    (abs_ℕ (first_sample.freq_mppb) ≤ level_bound default_clock)
    × (abs_ℕ (first_sample.freq_slope_mppb) ≤ 5_000)
    × (first_sample.quarantine ≤ 5)
Reach-bounds_example = Reach-bounds default_clock first_sample default-Fits first-Reach

abbrev set_clock : DisciplinedClock
set_clock = update_epoch first_sample 7_000_000_000 8_000_000_000 (pos 1_700_000_000_000_000_000)

now_mono_example :
    (t : ℤ) × (u : ℤ) × (now_from_query_ns set_clock 8_250_000_000 ≡ some t)
    × (now_from_query_ns set_clock 9_000_000_000 ≡ some u)
    × (t ≤ℤ u)
unfolding level_bound widest_gate update_epoch
now_mono_example =
    now_mono default_clock set_clock 8_000_000_000 8_250_000_000 9_000_000_000
      (pos 1_700_000_000_000_000_000) default-Fits (omega arith)
      (next first-Reach
        (epoch first_sample 7_000_000_000 8_000_000_000 (pos 1_700_000_000_000_000_000)))
      refl refl (omega arith) (omega arith) (omega arith)

now-capture_example :
    (t : ℤ) × (now_from_capture_ns warm 15_000_125_000 ≡ some t)
    × (abs_ℕ (t -ℤ pos 1_700_000_010_000_000_000)
        ≤ abs_ℕ (
              drift_of
                (pos 12_500_000)
                (pos 1_700_000_010_000_000_000 -ℤ pos 1_700_000_000_000_000_000))
            * 12_500_000
            / mppb_scale
          + 2)
unfolding ◌-ℤ◌ capture_ns_for_unix_ns drift_of ◌×ℤ◌ ◌/ℤ◌ ◌+ℤ◌ rem_euclid
now-capture_example =
    now-capture warm 5_000_000_000 15_000_125_000 (pos 1_700_000_000_000_000_000)
      (pos 1_700_000_010_000_000_000) (omega arith) refl refl (omega arith) (omega arith)
      (omega arith) refl

abbrev running : Gnssdo
running = record {
  tracker = record { config = default_config; last_us = some 4_000_000; count = 4 };
  clock = warm;
  last_pps_locked = false;
}

on_pps_estimate_example :
    SameEstimate (on_pps running 5_000_012 (pos 1_000_012_600)).0.clock warm
    ⊎ MayMove running 5_000_012 (pos 1_000_012_600)
on_pps_estimate_example = on_pps_estimate running 5_000_012 (pos 1_000_012_600) default-Fits

abbrev recovering : List (ℕ × ℤ)
recovering = (5_000_012, pos 1_000_012_600) ∷ (6_000_025, pos 1_000_700_000) ∷ []

recovery_holds_example :
    All IsHeld (run_pps running recovering).1
    × SameEstimate (run_pps running recovering).0.clock warm
unfolding run_pps on_pps discipline record_edge event classify deviation ◌-ℤ◌
recovery_holds_example =
    recovery_holds default_clock running recovering default-Fits refl refl (omega arith)
      (omega arith) ((refl, omega arith), ((refl, omega arith), tt)) (refl, (refl, tt))
