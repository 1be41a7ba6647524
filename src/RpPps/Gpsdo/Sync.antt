-- ===== src/RpPps/Gpsdo/Sync.antt =====
-- What a sentence does to the clock and to the pending edge.
use pico_gnss.Base.{ℕ, ◌^◌, ◌<◌, ◌≡◌, ◌⊎◌, refl, arith, none, some, List}
use pico_gnss.Base.Int.{ℤ, pos, ◌+ℤ◌, ◌-ℤ◌, ◌*ℤ◌, ◌/ℤ◌, rem_euclid, int_laws, IsI64}
use pico_gnss.Base.Int.Scale.{◌×ℤ◌, to_i64_lem}
use pico_gnss.RpPps.Calendar.{civil_to_unix}
use pico_gnss.RpPps.Capture.{TimedEdge}
use pico_gnss.RpPps.TimeSync
use pico_gnss.RpPps.TimeSync.{SyncEpoch, set_date, on_time, epoch, edge_offset_seconds}
use pico_gnss.RpPps.Gpsdo.{
  PpsGpsdo, SyncReport, on_pps_edge, feed_nmea, parse_source, apply_epoch, pin_epoch,
  time_from_query_ns,
}
use pico_gnss.Gnssdo.Discipline.{on_utc}
use pico_gnss.Gnssdo.Clock.{DisciplinedClock, update_epoch}
use pico_gnss.Gnssdo.Clock.Readout.{now_from_query_ns, corrected, drift_of}
use pico_gnss.Gnssdo.Clock.Readout.Order.{now_lem}

-- When `feed_nmea` reports nothing, the source's parser has refused the sentence or no edge was
-- pending, and the pending edge and the clock are as before.
pub feed_none :
    (s : PpsGpsdo) (sentence : List ℕ)
    → (feed_nmea s sentence).1 ≡ none
    → ((parse_source s.source sentence ≡ none) ⊎ (s.sync.pending ≡ none))
      × ((feed_nmea s sentence).0.sync.pending ≡ s.sync.pending)
      × ((feed_nmea s sentence).0.clock ≡ s.clock)
unfolding feed_nmea set_date on_time
feed_none s sentence h = ground arith

-- The instant that a sentence names for the edge before it.
unfoldable pub named_instant : PpsGpsdo → (ℕ × ℕ × ℕ) × (ℕ × ℕ × ℕ) → ℤ
named_instant s ((h, mi, sec), (day, month, year)) =
    (civil_to_unix (pos year) (pos month) (pos day) (pos h) (pos mi) (pos sec)
      +ℤ edge_offset_seconds s.sync.association)
    *ℤ 1_000_000_000

no_drift : (f : ℤ) → drift_of f (pos 0) ≡ pos 0
unfolding drift_of ◌×ℤ◌ ◌/ℤ◌ rem_euclid
no_drift f = ground arith

-- The time at the epoch itself.
time_at_epoch :
    (s : DisciplinedClock) (q : ℕ) (unix_ns : ℤ)
    → s.epoch_query_ns ≡ some q
    → s.epoch_unix_ns ≡ some unix_ns
    → q < 2 ^ 63
    → now_from_query_ns s q ≡ some unix_ns
unfolding corrected
time_at_epoch s q unix_ns eq eu fits =
    let zero_time : pos q -ℤ pos q ≡ pos 0 = omega int_laws in
    let same : unix_ns +ℤ (pos 0 -ℤ pos 0) ≡ unix_ns = omega int_laws in
    rw (now_lem s q q unix_ns eq eu fits fits, zero_time, no_drift s.freq_mppb, same)

-- The pairing behind the date and the time of a sentence.
paired : PpsGpsdo → (ℕ × ℕ × ℕ) × (ℕ × ℕ × ℕ) → PpsGpsdo
paired s (_, (day, month, year)) = record s {
  sync = record (set_date s.sync year month day) { pending = none };
}

feed_eq :
    (s : PpsGpsdo) (sentence : List ℕ) (capture_ns query_ns : ℕ) (named : (ℕ × ℕ × ℕ) × (ℕ × ℕ × ℕ))
    → s.sync.pending ≡ some (capture_ns, query_ns)
    → parse_source s.source sentence ≡ some named
    → IsI64 (named_instant s named)
    → feed_nmea s sentence
      ≡ pin_epoch (paired s named) (
          some (record {
            capture_ns = capture_ns;
            query_ns = query_ns;
            unix_ns = named_instant s named;
          }))
unfolding feed_nmea on_time epoch set_date named_instant paired
feed_eq s sentence capture_ns query_ns ((h, mi, sec), (day, month, year)) pending parsed
      named_fits =
    rw (parsed, pending, to_i64_lem (named_instant s ((h, mi, sec), (day, month, year))) named_fits)

pub feed_some :
    (s : PpsGpsdo) (sentence : List ℕ) (capture_ns query_ns : ℕ) (named : (ℕ × ℕ × ℕ) × (ℕ × ℕ × ℕ))
    → s.sync.pending ≡ some (capture_ns, query_ns)
    → parse_source s.source sentence ≡ some named
    → IsI64 (named_instant s named)
    → query_ns < 2 ^ 63
    → (r : SyncReport) × ((feed_nmea s sentence).1 ≡ some r)
      × (r.capture_ns ≡ capture_ns)
      × (r.unix_ns ≡ named_instant s named)
      × (time_from_query_ns (feed_nmea s sentence).0 query_ns ≡ some (named_instant s named))
      × ((feed_nmea s sentence).0.sync.pending ≡ none)
unfolding apply_epoch on_utc update_epoch time_from_query_ns paired
feed_some s sentence capture_ns query_ns named pending parsed named_fits fits =
    let e : SyncEpoch = record {
      capture_ns = capture_ns;
      query_ns = query_ns;
      unix_ns = named_instant s named;
    } in
    rw (feed_eq s sentence capture_ns query_ns named pending parsed named_fits) (
      (apply_epoch (paired s named) e).1,
      refl,
      refl,
      refl,
      time_at_epoch _ query_ns (named_instant s named) refl refl fits,
      refl,
    )

-- Where the source's parser reads a sentence that is fed behind an edge, with a query time below
-- 2^63 and an instant whose nanoseconds fit an `i64`, the report pins the edge to the instant
-- that the sentence names, moved by the association, the clock then reads that instant at the
-- query time of the edge, and the edge is used up.
pub edge_then_sentence :
    (s : PpsGpsdo) (edge : TimedEdge) (query_ns : ℕ) (sentence : List ℕ)
    (named : (ℕ × ℕ × ℕ) × (ℕ × ℕ × ℕ))
    → parse_source s.source sentence ≡ some named
    → IsI64 (named_instant s named)
    → query_ns < 2 ^ 63
    → (r : SyncReport) × ((feed_nmea (on_pps_edge s edge query_ns).0 sentence).1 ≡ some r)
      × (r.capture_ns ≡ edge.edge)
      × (r.unix_ns ≡ named_instant s named)
      × (time_from_query_ns (feed_nmea (on_pps_edge s edge query_ns).0 sentence).0 query_ns
          ≡ some (named_instant s named))
      × ((feed_nmea (on_pps_edge s edge query_ns).0 sentence).0.sync.pending ≡ none)
unfolding on_pps_edge TimeSync.on_pps_edge named_instant
edge_then_sentence s edge query_ns sentence named parsed named_fits fits =
    feed_some (on_pps_edge s edge query_ns).0 sentence edge.edge query_ns named refl parsed
      named_fits fits
