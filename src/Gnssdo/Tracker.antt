-- ===== src/Gnssdo/Tracker.antt =====
-- gnssdo/src/pps.rs: the classification of the intervals between pulses.
-- The sums and products are on `u64`, and the two casts and the count on `u32`.
pub mod Pulses
use pico_gnss.Base.{
  ℕ, ◌+◌, ◌-◌, ◌*◌, ◌/◌, ◌%◌, ◌^◌, Option, none, some, ltb, leb, ◌==◌, if◌then◌else◌,
}

-- `NOMINAL_US` and `TOLERANCE_US`.
abbrev pub nominal_us_default : ℕ
nominal_us_default = 1_000_000

abbrev pub tolerance_us_default : ℕ
tolerance_us_default = 50_000

-- `nominal_us` is a `NonZeroU64`.
pub record PpsTrackerConfig : Type 0 where
  pub nominal_us : ℕ
  pub tolerance_us : ℕ

abbrev pub default_config : PpsTrackerConfig
default_config = record { nominal_us = nominal_us_default; tolerance_us = tolerance_us_default }

pub data PpsEvent : Type 0 where
  first : PpsEvent
  locked : ℕ → PpsEvent
  -- interval_us, missed
  irregular : ℕ → ℕ → PpsEvent
  non_monotonic : ℕ → PpsEvent

pub record PpsTracker : Type 0 where
  pub config : PpsTrackerConfig
  pub last_us : Option ℕ
  pub count : ℕ

abbrev pub with_config : PpsTrackerConfig → PpsTracker
with_config config = record { config = config; last_us = none; count = 0 }

-- `abs_diff`.
abbrev pub abs_diff : ℕ → ℕ → ℕ
abs_diff a b = (a - b) + (b - a)

-- The last arm of the `match`, for `now_us >= prev`.
unfoldable pub classify : PpsTrackerConfig → ℕ → PpsEvent
classify config interval =
    let n = (interval + config.nominal_us / 2) % 2 ^ 64 / config.nominal_us in
    let error = abs_diff interval (n * config.nominal_us % 2 ^ 64) in
    if leb 1 n
    then if leb error (config.tolerance_us * n % 2 ^ 64)
      then if n == 1 then locked interval else irregular interval ((n - 1) % 2 ^ 32)
      else irregular interval 0
    else irregular interval 0

unfoldable pub event : PpsTracker → ℕ → PpsEvent
event self now_us = elim self.last_us [
  | none ↦ first
  | some prev ↦
      if ltb now_us prev
      then non_monotonic (prev - now_us)
      else classify self.config (now_us - prev)
]

unfoldable pub record_edge : PpsTracker → ℕ → PpsTracker × PpsEvent
record_edge self now_us = (
  record { config = self.config; last_us = some now_us; count = (self.count + 1) % 2 ^ 32 },
  event self now_us,
)
