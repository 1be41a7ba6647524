-- ===== src/RpPps/TimeSync.antt =====
-- rp-pps/src/timesync.rs: `PpsTimeSync`, which pairs an edge with the second that a sentence names.
-- The product of nanoseconds keeps the wrap-around of an `i64`.
pub mod Pairing
pub mod Seconds
use pico_gnss.Base.{ℕ, ◌+◌, ◌*◌, Option, none, some}
use pico_gnss.Base.Int.{ℤ, pos, negsuc, ◌+ℤ◌, ◌*ℤ◌, to_i64}
use pico_gnss.RpPps.Calendar.{civil_to_unix}

pub record SyncEpoch : Type 0 where
  pub capture_ns : ℕ
  pub query_ns : ℕ
  pub unix_ns : ℤ

pub data PpsNmeaAssociation : Type 0 where
  same_second nmea_is_previous_second nmea_is_next_second : PpsNmeaAssociation

unfoldable pub edge_offset_seconds : PpsNmeaAssociation → ℤ
edge_offset_seconds same_second = pos 0
edge_offset_seconds nmea_is_previous_second = pos 1
edge_offset_seconds nmea_is_next_second = negsuc 0

-- `last_date` is (year, month, day), `pending` is (capture_ns, query_ns).
pub record PpsTimeSync : Type 0 where
  pub association : PpsNmeaAssociation
  pub last_date : Option (ℕ × ℕ × ℕ)
  pub pending : Option (ℕ × ℕ)

abbrev pub with_association : PpsNmeaAssociation → PpsTimeSync
with_association a = record { association = a; last_date = none; pending = none }

unfoldable pub on_pps_edge : PpsTimeSync → ℕ → ℕ → PpsTimeSync
on_pps_edge self capture_ns query_ns = record self { pending = some (capture_ns, query_ns) }

unfoldable pub set_date : PpsTimeSync → ℕ → ℕ → ℕ → PpsTimeSync
set_date self year month day = record self { last_date = some (year, month, day) }

-- The epoch of an edge and a second.
unfoldable pub epoch : PpsNmeaAssociation → ℕ × ℕ × ℕ → ℕ × ℕ → ℕ → ℕ → ℕ → SyncEpoch
epoch association date edge h mi s =
    let (y, mo, d) = date in
    let unix_s =
      civil_to_unix (pos y) (pos mo) (pos d) (pos h) (pos mi) (pos s)
      +ℤ edge_offset_seconds association in
    record { capture_ns = edge.0; query_ns = edge.1; unix_ns = to_i64 (unix_s *ℤ 1_000_000_000) }

-- The first `?` leaves the edge where it is; the second takes it in any case.
unfoldable pub on_time : PpsTimeSync → ℕ → ℕ → ℕ → PpsTimeSync × Option SyncEpoch
on_time self h mi s = elim self.last_date [
  | none ↦ (self, none)
  | some date ↦ elim self.pending [
    | none ↦ (record self { pending = none }, none)
    | some edge ↦ (record self { pending = none }, some (epoch self.association date edge h mi s))
  ]
]
