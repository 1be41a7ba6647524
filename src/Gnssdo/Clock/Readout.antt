-- ===== src/Gnssdo/Clock/Readout.antt =====
-- gnssdo/src/gpsdo.rs: the times and the frequencies that are read off the disciplined clock.
-- Products and quotients are in `i128`; the casts to `i64` keep their wrap-around.
pub mod Seconds
pub mod RoundTrip
pub mod Order
use pico_gnss.Base.{ℕ, ◌-◌, if◌then◌else◌, ◌&&◌, Option, none, some}
use pico_gnss.Base.Int.{ℤ, pos, neg_ℤ, ◌+ℤ◌, ◌-ℤ◌, ◌*ℤ◌, ◌/ℤ◌, ltb_ℤ, to_i64}
use pico_gnss.Base.Int.Scale.{◌×ℤ◌, clamp_about}
use pico_gnss.Gnssdo.Clock.{DisciplinedClock, temp_ff_mppb}

-- `raw.signum() * k`.
unfoldable pub signed : ℤ → ℕ → ℤ
signed a k = if ltb_ℤ (pos 0) a then pos k else if ltb_ℤ a (pos 0) then neg_ℤ (pos k) else pos 0

unfoldable pub snap_to_second_ns : ℤ → ℤ
snap_to_second_ns raw =
    let secs = (raw +ℤ signed raw 500_000_000) /ℤ 1_000_000_000 in raw -ℤ secs *ℤ 1_000_000_000

-- `d * mppb / 1e12`.
abbrev pub mppb_scale : ℕ
mppb_scale = 1_000_000_000_000

unfoldable pub drift_of : ℤ → ℤ → ℤ
drift_of freq_mppb d = to_i64 ((d ×ℤ freq_mppb) /ℤ mppb_scale)

unfoldable pub corrected : DisciplinedClock → ℤ → ℤ
corrected self d = d -ℤ drift_of self.freq_mppb d

abbrev pub slope_scale : ℕ
slope_scale = 2_000_000_000_000_000_000_000

unfoldable pub corrected_slope : DisciplinedClock → ℤ → ℤ
corrected_slope self d =
    d -ℤ drift_of self.freq_mppb d -ℤ to_i64 ((self.freq_slope_mppb ×ℤ d ×ℤ d) /ℤ slope_scale)

unfoldable pub freq_ppb : DisciplinedClock → ℤ
freq_ppb self = (self.freq_mppb +ℤ signed self.freq_mppb 500) /ℤ 1000

unfoldable pub predicted_freq_mppb : DisciplinedClock → ℤ
predicted_freq_mppb self =
    let has_model = ltb_ℤ (pos 0) self.temp.temp_var in
    if self.config.temp_ff_enable && self.temp.temp_have && has_model
    then temp_ff_mppb self.config self.temp self.temp.tcrys_hat +ℤ self.temp.r_resid
    else self.freq_mppb +ℤ self.freq_slope_mppb ×ℤ self.config.pred_lead_samples

unfoldable pub steering_freq_mppb : DisciplinedClock → ℤ
steering_freq_mppb self =
    self.freq_mppb
    +ℤ clamp_about (predicted_freq_mppb self -ℤ self.freq_mppb) self.config.steer_ff_bound_mppb

-- The two `?` of a readout from the epoch of a timebase.
abbrev pub with_epoch : Option ℕ → Option ℤ → (ℤ → ℤ → ℤ) → Option ℤ
with_epoch none eu f = none
with_epoch (some ep) none f = none
with_epoch (some ep) (some eu) f = some (f (to_i64 (pos ep)) eu)

unfoldable pub now_from_capture_ns : DisciplinedClock → ℕ → Option ℤ
now_from_capture_ns self capture_ns =
    with_epoch self.epoch_capture_ns self.epoch_unix_ns
      λ ep eu. eu +ℤ corrected self (to_i64 (pos capture_ns) -ℤ ep)

unfoldable pub now_from_capture_ns_holdover : DisciplinedClock → ℕ → Option ℤ
now_from_capture_ns_holdover self capture_ns =
    with_epoch self.epoch_capture_ns self.epoch_unix_ns
      λ ep eu. eu +ℤ corrected_slope self (to_i64 (pos capture_ns) -ℤ ep)

unfoldable pub now_from_query_ns : DisciplinedClock → ℕ → Option ℤ
now_from_query_ns self query_ns =
    with_epoch self.epoch_query_ns self.epoch_unix_ns
      λ ei eu. eu +ℤ corrected self (to_i64 (pos query_ns) -ℤ ei)

unfoldable pub true_to_local_ns : DisciplinedClock → ℤ → ℤ
true_to_local_ns self true_ns = true_ns +ℤ drift_of self.freq_mppb true_ns

unfoldable pub query_ns_for_unix_ns : DisciplinedClock → ℤ → Option ℤ
query_ns_for_unix_ns self unix_ns =
    with_epoch self.epoch_query_ns self.epoch_unix_ns
      λ ei eu. let dt = unix_ns -ℤ eu in ei +ℤ (dt +ℤ drift_of self.freq_mppb dt)

unfoldable pub capture_ns_for_unix_ns : DisciplinedClock → ℤ → Option ℤ
capture_ns_for_unix_ns self unix_ns =
    with_epoch self.epoch_capture_ns self.epoch_unix_ns
      λ ep eu. let dt = unix_ns -ℤ eu in ep +ℤ (dt +ℤ drift_of self.freq_mppb dt)

-- `map` of a residual.
abbrev pub snapped : Option ℤ → ℤ → Option ℤ
snapped none reference = none
snapped (some t) reference = some (snap_to_second_ns (t -ℤ reference))

pub prediction_residual_ns : DisciplinedClock → ℕ → ℤ → Option ℤ
prediction_residual_ns self capture_ns unix_ns =
    snapped (now_from_capture_ns self capture_ns) unix_ns

pub prediction_residual_holdover_ns : DisciplinedClock → ℕ → ℤ → Option ℤ
prediction_residual_holdover_ns self capture_ns unix_ns =
    snapped (now_from_capture_ns_holdover self capture_ns) unix_ns

pub fire_residual_ns : DisciplinedClock → ℕ → ℤ → Option ℤ
fire_residual_ns self capture_ns unix_ns =
    snapped (capture_ns_for_unix_ns self unix_ns) (to_i64 (pos capture_ns))

unfoldable pub holdover_ns : DisciplinedClock → ℕ → ℕ
holdover_ns self query_ns = elim self.last_query_ns [ none ↦ 0 | some t ↦ query_ns - t ]
