-- ===== src/TinyNtp/Server.antt =====
-- tiny-ntp/src/server.rs: whether the server may answer, and what it claims.
-- The products and sums on `u64` and `u128` saturate where the source says so.
pub mod Dispersion
pub mod Policy
pub mod Answers
pub mod Wire
use pico_gnss.Base.{
  ℕ, ◌+◌, ◌*◌, ◌/◌, ◌^◌, ◌-◌, ◌<◌, ◌≤◌, Bool, true, false, not, ◌||◌, Option, none, some, ltb, leb,
  ◌==◌, if◌then◌else◌, min,
}
use pico_gnss.Base.Int.{ℤ, pos_part, neg_part, IsI64, IsI8}
use pico_gnss.Base.Bytes.{IsByte, Quad, IsQuad}
use pico_gnss.TinyNtp.Timestamp.{NtpTimestamp, zero_timestamp, from_unix_ns}
use pico_gnss.TinyNtp.Short.{NtpShort, IsShort, zero_short, from_nanos, to_nanos}
use pico_gnss.TinyNtp.Packet.{LeapIndicator, Mode, NtpPacket}

abbrev pub max_stratum : ℕ
max_stratum = 16

abbrev pub ntp_version : ℕ
ntp_version = 4

pub data Source : Type 0 where
  reference_clock : Quad → Source
  -- address, stratum, root delay, root dispersion, delay_ns
  upstream : Quad → ℕ → NtpShort → NtpShort → ℤ → Source

-- `LeapWarning::None` is `no_leap`.
pub data LeapWarning : Type 0 where
  no_leap insert delete : LeapWarning

pub record ServerConfig : Type 0 where
  pub precision : ℤ
  pub poll : ℤ
  pub source : Source
  pub base_dispersion_ns : ℕ
  pub holdover_drift_ppb : ℕ
  pub max_holdover_ns : ℕ

pub record ClockState : Type 0 where
  pub last_update_unix_ns : Option ℤ
  pub holdover_ns : ℕ
  pub frequency_locked : Bool
  pub leap : LeapWarning

pub data SilentReason : Type 0 where
  no_epoch frequency_unlocked holdover_exceeded too_deep not_a_request : SilentReason
  unsupported_version upstream_unsynchronised : SilentReason

pub data ServeDecision : Type 0 where
  serve : NtpPacket → ServeDecision
  silent : SilentReason → ServeDecision

-- `Result<i64, SilentReason>`.
pub data Gate : Type 0 where
  ok : ℤ → Gate
  err : SilentReason → Gate

abbrev pub u64_max : ℕ
u64_max = 2 ^ 64 - 1

abbrev pub u128_max : ℕ
u128_max = 2 ^ 128 - 1

-- `saturating_add` on `u64`.
abbrev pub saturating_add : ℕ → ℕ → ℕ
saturating_add a b = min u64_max (a + b)

pub root_dispersion_ns : ServerConfig → ℕ → ℕ
root_dispersion_ns cfg holdover_ns =
    let growth = min u128_max (holdover_ns * cfg.holdover_drift_ppb) / 1_000_000_000 in
    saturating_add cfg.base_dispersion_ns (if ltb u64_max growth then u64_max else growth)

-- `stratum.saturating_add(1)` on `u8`.
unfoldable pub stratum : Source → ℕ
stratum (reference_clock id) = 1
stratum (upstream address s root_delay root_dispersion delay_ns) = min 255 (s + 1)

-- `if let Source::Upstream { stratum: 0, .. }`.
unfoldable pub is_unsynchronised_upstream : Source → Bool
is_unsynchronised_upstream (reference_clock id) = false
is_unsynchronised_upstream (upstream address s root_delay root_dispersion delay_ns) = s == 0

-- The tests of `gate` behind the first, for a clock that knows the time.
unfoldable pub gate_epoch : ServerConfig → ClockState → ℤ → Gate
gate_epoch cfg state last_update =
    if not state.frequency_locked
    then err frequency_unlocked
    else if ltb cfg.max_holdover_ns state.holdover_ns
    then err holdover_exceeded
    else if is_unsynchronised_upstream cfg.source
    then err upstream_unsynchronised
    else if leb max_stratum (stratum cfg.source)
    then err too_deep
    else ok last_update

unfoldable pub gate : ServerConfig → ClockState → Gate
gate cfg state = elim state.last_update_unix_ns [
  | none ↦ err no_epoch
  | some last_update ↦ gate_epoch cfg state last_update
]

unfoldable pub silent_reason : ServerConfig → ClockState → Option SilentReason
silent_reason cfg state = elim (gate cfg state) [ ok t ↦ none | err reason ↦ some reason ]

-- The three fields of the path to the root: identifier, delay and dispersion.
pub root_path : Source → ℕ → Quad × NtpShort × NtpShort
root_path (reference_clock id) own_dispersion = (id, zero_short, from_nanos own_dispersion)
root_path (upstream address s root_delay root_dispersion delay_ns) own_dispersion = (
  address,
  from_nanos (saturating_add (to_nanos root_delay) (pos_part delay_ns)),
  from_nanos (
      saturating_add (saturating_add (to_nanos root_dispersion) own_dispersion)
        (neg_part delay_ns)),
)

pub leap_indicator : LeapWarning → LeapIndicator
leap_indicator no_leap = LeapIndicator.no_warning
leap_indicator insert = LeapIndicator.last_minute61
leap_indicator delete = LeapIndicator.last_minute59

pub base_packet : ServerConfig → ClockState → ℤ → NtpPacket
base_packet cfg state last_update =
    let path = root_path cfg.source (root_dispersion_ns cfg state.holdover_ns) in
    record {
      leap = leap_indicator state.leap;
      version = ntp_version;
      mode = Mode.broadcast;
      stratum = stratum cfg.source;
      poll = cfg.poll;
      precision = cfg.precision;
      root_delay = path.1;
      root_dispersion = path.2;
      reference_id = path.0;
      reference_timestamp = from_unix_ns last_update;
      origin_timestamp = zero_timestamp;
      receive_timestamp = zero_timestamp;
      transmit_timestamp = zero_timestamp;
    }

unfoldable pub broadcast : ServerConfig → ClockState → ℤ → ServeDecision
broadcast cfg state transmit_unix_ns = elim (gate cfg state) [
  | ok last_update ↦ serve (record (base_packet cfg state last_update) {
    mode = Mode.broadcast;
    transmit_timestamp = from_unix_ns transmit_unix_ns;
  })
  | err reason ↦ silent reason
]

-- `request.mode != Mode::Client`.
unfoldable pub is_client : Mode → Bool
is_client Mode.client = true
is_client _ = false

unfoldable pub respond : ServerConfig → ClockState → NtpPacket → ℤ → ℤ → ServeDecision
respond cfg state request receive_unix_ns transmit_unix_ns =
    if not (is_client request.mode)
    then silent not_a_request
    else if (request.version == 0) || ltb ntp_version request.version
    then silent unsupported_version
    else elim (gate cfg state) [
      | ok last_update ↦ serve (record (base_packet cfg state last_update) {
        mode = Mode.server;
        version = request.version;
        poll = request.poll;
        origin_timestamp = request.transmit_timestamp;
        receive_timestamp = from_unix_ns receive_unix_ns;
        transmit_timestamp = from_unix_ns transmit_unix_ns;
      })
      | err reason ↦ silent reason
    ]
