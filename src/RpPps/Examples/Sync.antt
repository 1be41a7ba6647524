-- ===== src/RpPps/Examples/Sync.antt =====
-- A bundle that is fed an edge and a sentence.
use pico_gnss.Base.{◌≡◌, ◌⊎◌, arith, none, some}
use pico_gnss.Base.Int.{IsI64, ◌+ℤ◌, ◌-ℤ◌, ◌*ℤ◌, ◌/ℤ◌}
use pico_gnss.RpPps.Calendar.{civil_to_unix, days_from_civil, days_from_march}
use pico_gnss.RpPps.Capture.{TimedEdge}
use pico_gnss.RpPps.TimeSync.{same_second, edge_offset_seconds, set_date, on_time}
use pico_gnss.RpPps.Gpsdo.{
  PpsGpsdo, SyncReport, zda, with_config, on_pps_edge, feed_nmea, parse_source, time_from_query_ns,
}
use pico_gnss.RpPps.Gpsdo.Sync.{named_instant, edge_then_sentence, feed_none}
use pico_gnss.RpPps.Examples.Fields.{measured, measured_read}

abbrev fresh : PpsGpsdo
fresh = with_config zda same_second

abbrev third : TimedEdge
third = record { raw = 7; interval = 1_000_000_016; edge = 3_000_000_123 }

measured_parsed : parse_source zda measured ≡ some ((2, 42, 47), (18, 8, 2026))
unfolding parse_source
measured_parsed = measured_read

measured_fits : IsI64 (named_instant fresh ((2, 42, 47), (18, 8, 2026)))
unfolding named_instant civil_to_unix days_from_civil days_from_march edge_offset_seconds ◌+ℤ◌ ◌-ℤ◌
    ◌*ℤ◌ ◌/ℤ◌
measured_fits = omega arith

edge_then_sentence_example :
    (r : SyncReport) × ((feed_nmea (on_pps_edge fresh third 4_000_000_456).0 measured).1 ≡ some r)
    × (r.capture_ns ≡ 3_000_000_123)
    × (r.unix_ns ≡ named_instant fresh ((2, 42, 47), (18, 8, 2026)))
    × (time_from_query_ns
          (feed_nmea (on_pps_edge fresh third 4_000_000_456).0 measured).0
          4_000_000_456
        ≡ some (named_instant fresh ((2, 42, 47), (18, 8, 2026))))
    × ((feed_nmea (on_pps_edge fresh third 4_000_000_456).0 measured).0.sync.pending ≡ none)
edge_then_sentence_example =
    edge_then_sentence fresh third 4_000_000_456 measured ((2, 42, 47), (18, 8, 2026))
      measured_parsed measured_fits (omega arith)

-- The sentence without an edge.
nothing_pinned : (feed_nmea fresh measured).1 ≡ none
unfolding feed_nmea set_date on_time
nothing_pinned = rw measured_parsed

feed_none_example :
    ((parse_source zda measured ≡ none) ⊎ (fresh.sync.pending ≡ none))
    × ((feed_nmea fresh measured).0.sync.pending ≡ none)
    × ((feed_nmea fresh measured).0.clock ≡ fresh.clock)
feed_none_example = feed_none fresh measured nothing_pinned
