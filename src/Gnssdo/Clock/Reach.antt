-- ===== src/Gnssdo/Clock/Reach.antt =====
-- The states that the clock reaches by its operations, and the range of its estimate in them.
use pico_gnss.Base.{ℕ, ◌+◌, ◌^◌, ◌≤◌, ◌<◌, ◌≡◌, refl, ◌∙◌, arith, Bool}
use pico_gnss.Base.Int.{ℤ, abs_ℕ}
use pico_gnss.Gnssdo.Clock.{
  DisciplinedClock, DisciplinedClockConfig, with_config, update_freq, update_temp,
  set_temp_ff_enable, set_temp_ff_params, set_temp_ff_lag, start_quarantine, update_epoch,
  apply_measurement,
}
use pico_gnss.Gnssdo.Clock.Gates.{Fits}
use pico_gnss.Gnssdo.Clock.Bounds.{IsBounded, level_bound, widest_gate, pulse-IsBounded}

-- The operations of the clock. The count of the samples is a `u32`: it wraps after 136 years of
-- pulses, and the states are those before.
pub data Step : DisciplinedClock → DisciplinedClock → Type 0 where
  pulse :
      (s : DisciplinedClock) (interval_ns : ℤ)
      → s.samples + 1 < 2 ^ 32
      → Step s (update_freq s interval_ns).0
  temperature : (s : DisciplinedClock) (temp : ℤ) → Step s (update_temp s temp)
  quarantine : (s : DisciplinedClock) → Step s (start_quarantine s)
  epoch :
      (s : DisciplinedClock) (capture_ns query_ns : ℕ) (unix_ns : ℤ)
      → Step s (update_epoch s capture_ns query_ns unix_ns)
  enable : (s : DisciplinedClock) (en : Bool) → Step s (set_temp_ff_enable s en)
  params :
      (s : DisciplinedClock) (sm_shift shift : ℕ) (gain_q8 : ℤ)
      → Step s (set_temp_ff_params s sm_shift shift gain_q8)
  lag :
      (s : DisciplinedClock) (lag_q8 : ℤ) (dlead_shift obs_shift : ℕ)
      → Step s (set_temp_ff_lag s lag_q8 dlead_shift obs_shift)

pub data Reach (config : DisciplinedClockConfig) : DisciplinedClock → Type 0 where
  start : Reach config (with_config config)
  next : {s t : DisciplinedClock} → Reach config s → Step s t → Reach config t

pub Step-IsBounded : {s t : DisciplinedClock} → Step s t → IsBounded s → IsBounded t
unfolding update_temp start_quarantine update_epoch set_temp_ff_enable set_temp_ff_params
    set_temp_ff_lag level_bound widest_gate
Step-IsBounded (pulse s interval_ns few) h = pulse-IsBounded s interval_ns few h
Step-IsBounded (temperature s temp) h = ground arith
Step-IsBounded (quarantine s) h = ground arith
Step-IsBounded (epoch s capture_ns query_ns unix_ns) h = ground arith
Step-IsBounded (enable s en) h = ground arith
Step-IsBounded (params s sm_shift shift gain_q8) h = ground arith
Step-IsBounded (lag s lag_q8 dlead_shift obs_shift) h = ground arith

-- The settings that the bounds are made of.
abbrev pub SameLimits : DisciplinedClockConfig → DisciplinedClockConfig → Type 0
SameLimits c d =
    (level_bound c ≡ level_bound d)
    × (c.slope_max_mppb ≡ d.slope_max_mppb)
    × (c.quarantine_samples ≡ d.quarantine_samples)

-- An interval changes no setting.
update_freq_config :
    (s : DisciplinedClock) (interval_ns : ℤ) → (update_freq s interval_ns).0.config ≡ s.config
unfolding update_freq apply_measurement
update_freq_config s interval_ns = ground arith

Step-SameLimits : {s t : DisciplinedClock} → Step s t → SameLimits t.config s.config
unfolding update_temp start_quarantine update_epoch set_temp_ff_enable set_temp_ff_params
    set_temp_ff_lag level_bound widest_gate
Step-SameLimits (pulse s interval_ns few) = rw (update_freq_config s interval_ns) (refl, refl, refl)
Step-SameLimits (temperature s temp) = (refl, refl, refl)
Step-SameLimits (quarantine s) = ground arith
Step-SameLimits (epoch s capture_ns query_ns unix_ns) = (refl, refl, refl)
Step-SameLimits (enable s en) = (refl, refl, refl)
Step-SameLimits (params s sm_shift shift gain_q8) = (refl, refl, refl)
Step-SameLimits (lag s lag_q8 dlead_shift obs_shift) = (refl, refl, refl)

Reach-IsBounded :
    {c : DisciplinedClockConfig} {s : DisciplinedClock}
    → Fits c
    → Reach c s
    → IsBounded s × SameLimits s.config c
Reach-IsBounded h start = (ground (arith, h), (refl, refl, refl))
Reach-IsBounded h (next r st) =
    let (bounded, same) = Reach-IsBounded h r in
    let more = Step-SameLimits st in
    (Step-IsBounded st bounded, (more.0 ∙ same.0, more.1 ∙ same.1, more.2 ∙ same.2))

-- With gates that fit in `i64`, in every state that the clock reaches by pulses (the count of
-- samples below 2^32 - 1), temperatures, quarantines, epochs and settings of the feedforward, the
-- level is within the emergency window, the widest residual gate and the largest slope together,
-- the slope is within its clamp, and the quarantine within its length.
pub Reach-bounds :
    (c : DisciplinedClockConfig) (s : DisciplinedClock)
    → Fits c
    → Reach c s
    → (abs_ℕ s.freq_mppb ≤ level_bound c)
      × (abs_ℕ s.freq_slope_mppb ≤ c.slope_max_mppb)
      × (s.quarantine ≤ c.quarantine_samples)
Reach-bounds c s h r =
    let (bounded, same) = Reach-IsBounded h r in
    omega (arith, bounded.level_le, bounded.slope_le, bounded.quarantine_le, same)
