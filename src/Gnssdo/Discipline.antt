-- ===== src/Gnssdo/Discipline.antt =====
-- gnssdo/src/gpsdo.rs: `Gnssdo`, the tracker and the clock with the policy between them.
pub mod Policy
pub mod Recovery
use pico_gnss.Base.{ℕ, if◌then◌else◌, Bool, true, false, not, ◌&&◌, Option, none, some}
use pico_gnss.Base.Int.{ℤ, pos, ltb_ℤ}
use pico_gnss.Gnssdo.Tracker.{
  PpsTracker, PpsTrackerConfig, PpsEvent, first, locked, irregular, non_monotonic, record_edge,
}
use pico_gnss.Gnssdo.Tracker
use pico_gnss.Gnssdo.Clock
use pico_gnss.Gnssdo.Clock.{
  DisciplinedClock, DisciplinedClockConfig, FreqUpdate, update_freq, start_quarantine, update_epoch,
}

pub record GnssdoStep : Type 0 where
  pub event : PpsEvent
  pub freq : Option FreqUpdate
  pub recovered : Bool

pub record Gnssdo : Type 0 where
  pub tracker : PpsTracker
  pub clock : DisciplinedClock
  pub last_pps_locked : Bool

abbrev pub with_config : PpsTrackerConfig → DisciplinedClockConfig → Gnssdo
with_config tracker clock = record {
  tracker = Tracker.with_config tracker;
  clock = Clock.with_config clock;
  last_pps_locked = false;
}

-- `matches!(event, PpsEvent::Locked { .. })`.
abbrev pub is_locked_event : PpsEvent → Bool
is_locked_event first = false
is_locked_event (locked interval_us) = true
is_locked_event (irregular interval_us missed) = false
is_locked_event (non_monotonic back_us) = false

-- The clock behind an edge, and the outcome of its discipline.
unfoldable pub discipline :
    DisciplinedClock → Bool → Bool → ℤ → DisciplinedClock × Option FreqUpdate
discipline clock is_locked recovered interval_ns =
    if ltb_ℤ (pos 0) interval_ns && is_locked
    then (let (clock', outcome) =
          update_freq (if recovered then start_quarantine clock else clock) interval_ns in
        (clock', some outcome))
    else (clock, none)

unfoldable pub on_pps : Gnssdo → ℕ → ℤ → Gnssdo × GnssdoStep
on_pps self capture_time_us interval_ns =
    let (tracker, event) = record_edge self.tracker capture_time_us in
    let is_locked = is_locked_event event in
    let recovered = is_locked && not self.last_pps_locked in
    let (clock, freq) = discipline self.clock is_locked recovered interval_ns in
    (
      record { tracker = tracker; clock = clock; last_pps_locked = is_locked },
      record { event = event; freq = freq; recovered = recovered },
    )

unfoldable pub on_utc : Gnssdo → ℕ → ℕ → ℤ → Gnssdo
on_utc self capture_ns query_ns unix_ns = record self {
  clock = update_epoch self.clock capture_ns query_ns unix_ns;
}

pub update_temp : Gnssdo → ℤ → Gnssdo
update_temp self temp = record self { clock = Clock.update_temp self.clock temp }

pub set_temp_ff_enable : Gnssdo → Bool → Gnssdo
set_temp_ff_enable self en = record self { clock = Clock.set_temp_ff_enable self.clock en }

pub set_temp_ff_params : Gnssdo → ℕ → ℕ → ℤ → Gnssdo
set_temp_ff_params self sm_shift shift gain_q8 = record self {
  clock = Clock.set_temp_ff_params self.clock sm_shift shift gain_q8;
}

pub set_temp_ff_lag : Gnssdo → ℤ → ℕ → ℕ → Gnssdo
set_temp_ff_lag self lag_q8 dlead_shift obs_shift = record self {
  clock = Clock.set_temp_ff_lag self.clock lag_q8 dlead_shift obs_shift;
}
