-- ===== src/RpPps/Gpsdo.antt =====
-- rp-pps/src/gpsdo.rs: `PpsGpsdo`, which feeds edges and sentences to the pairing and the clock.
pub mod Sync
use pico_gnss.Base.{ℕ, ◌/◌, Option, none, some, List}
use pico_gnss.Base.Int.{ℤ, pos, to_i64}
use pico_gnss.RpPps.Fields.{parse_rmc_time_date, parse_zda_time_date}
use pico_gnss.RpPps.TimeSync
use pico_gnss.RpPps.TimeSync.{
  SyncEpoch, PpsTimeSync, PpsNmeaAssociation, with_association, set_date, on_time,
}
use pico_gnss.RpPps.Capture.{TimedEdge}
use pico_gnss.Gnssdo.Tracker
use pico_gnss.Gnssdo.Clock
use pico_gnss.Gnssdo.Clock.Readout.{
  prediction_residual_ns, fire_residual_ns, holdover_ns, freq_ppb, now_from_query_ns,
}
use pico_gnss.Gnssdo.Discipline
use pico_gnss.Gnssdo.Discipline.{Gnssdo, GnssdoStep, on_pps, on_utc}

pub data NmeaTimeSource : Type 0 where
  rmc zda : NmeaTimeSource

pub record SyncReport : Type 0 where
  pub capture_ns : ℕ
  pub unix_ns : ℤ
  pub err_ns : ℤ
  pub fire_ns : ℤ
  pub holdover_ns : ℕ
  pub freq_ppb : ℤ

pub record PpsGpsdo : Type 0 where
  pub clock : Gnssdo
  pub sync : PpsTimeSync
  pub source : NmeaTimeSource

abbrev pub with_config : NmeaTimeSource → PpsNmeaAssociation → PpsGpsdo
with_config source association = record {
  clock = Discipline.with_config Tracker.default_config Clock.default_clock;
  sync = with_association association;
  source = source;
}

unfoldable pub on_pps_edge : PpsGpsdo → TimedEdge → ℕ → PpsGpsdo × GnssdoStep
on_pps_edge self edge query_ns =
    let (clock, report) = on_pps self.clock (edge.edge / 1000) (to_i64 (pos edge.interval)) in
    (
      record self { clock = clock; sync = TimeSync.on_pps_edge self.sync edge.edge query_ns },
      report,
    )

-- The sentence that the source names.
unfoldable pub parse_source : NmeaTimeSource → List ℕ → Option ((ℕ × ℕ × ℕ) × (ℕ × ℕ × ℕ))
parse_source rmc sentence = parse_rmc_time_date sentence
parse_source zda sentence = parse_zda_time_date sentence

abbrev pub unwrap_or_zero : Option ℤ → ℤ
unwrap_or_zero none = pos 0
unwrap_or_zero (some t) = t

-- The residuals are of the clock before the epoch, the frequency of the clock behind it.
unfoldable pub apply_epoch : PpsGpsdo → SyncEpoch → PpsGpsdo × SyncReport
apply_epoch self e =
    let clock = self.clock.clock in
    let clock' = on_utc self.clock e.capture_ns e.query_ns e.unix_ns in
    (
      record self { clock = clock' },
      record {
        capture_ns = e.capture_ns;
        unix_ns = e.unix_ns;
        err_ns = unwrap_or_zero (prediction_residual_ns clock e.capture_ns e.unix_ns);
        fire_ns = unwrap_or_zero (fire_residual_ns clock e.capture_ns e.unix_ns);
        holdover_ns = holdover_ns clock e.query_ns;
        freq_ppb = freq_ppb (clock'.clock);
      },
    )

-- The rest of `feed_nmea` behind the `?` of `on_time`.
abbrev pub pin_epoch : PpsGpsdo → Option SyncEpoch → PpsGpsdo × Option SyncReport
pin_epoch self none = (self, none)
pin_epoch self (some e) = let (self', report) = apply_epoch self e in (self', some report)

-- The rest of `feed_nmea` behind the parser: the time, and the date by day, month and year.
abbrev pub feed_parsed :
    PpsGpsdo → Option ((ℕ × ℕ × ℕ) × (ℕ × ℕ × ℕ)) → PpsGpsdo × Option SyncReport
feed_parsed self none = (self, none)
feed_parsed self (some ((h, mi, s), (day, month, year))) =
    let (sync, e) = on_time (set_date self.sync year month day) h mi s in
    pin_epoch (record self { sync = sync }) e

unfoldable pub feed_nmea : PpsGpsdo → List ℕ → PpsGpsdo × Option SyncReport
feed_nmea self sentence = feed_parsed self (parse_source self.source sentence)

unfoldable pub time_from_query_ns : PpsGpsdo → ℕ → Option ℤ
time_from_query_ns self query_ns = now_from_query_ns self.clock.clock query_ns
