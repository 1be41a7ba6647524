-- ===== src/TinyNtp/Client.antt =====
-- tiny-ntp/src/client.rs: a request, and the offset that a reply or a broadcast measures.
-- The differences are in `i128`, which four `i64` values cannot leave, and are clamped to `i64`.
pub mod Sanity
pub mod Exchange
pub mod Wire
use pico_gnss.Base.{ℕ, ◌≤◌, Bool, true, false, not, ◌&&◌, ◌||◌, leb, ◌==◌, if◌then◌else◌}
use pico_gnss.Base.Int.{ℤ, pos, ◌+ℤ◌, ◌-ℤ◌, ◌/ℤ◌, saturate_i64}
use pico_gnss.Base.Bytes.{quad}
use pico_gnss.TinyNtp.Timestamp.{NtpTimestamp, zero_timestamp, from_unix_ns, to_unix_ns_near}
use pico_gnss.TinyNtp.Short.{zero_short, to_nanos}
use pico_gnss.TinyNtp.Packet.{LeapIndicator, Mode, NtpPacket}
use pico_gnss.TinyNtp.Server.{ntp_version}

pub data Reject : Type 0 where
  not_a_reply not_a_broadcast version_mismatch bogus unsynchronized : Reject

pub record Measurement : Type 0 where
  pub offset_ns : ℤ
  pub delay_ns : ℤ
  pub stratum : ℕ
  pub root_dispersion_ns : ℕ

-- `Result<Measurement, Reject>`.
pub data Outcome : Type 0 where
  ok : Measurement → Outcome
  err : Reject → Outcome

unfoldable pub request : ℤ → ℤ → NtpPacket
request transmit_unix_ns poll = record {
  leap = LeapIndicator.no_warning;
  version = ntp_version;
  mode = Mode.client;
  stratum = 0;
  poll = poll;
  precision = pos 0;
  root_delay = zero_short;
  root_dispersion = zero_short;
  reference_id = quad 0 0 0 0;
  reference_timestamp = zero_timestamp;
  origin_timestamp = zero_timestamp;
  receive_timestamp = zero_timestamp;
  transmit_timestamp = from_unix_ns transmit_unix_ns;
}

-- The derived `==` of the enums and of `NtpTimestamp`.
pub is_server : Mode → Bool
is_server Mode.server = true
is_server _ = false

pub is_broadcast : Mode → Bool
is_broadcast Mode.broadcast = true
is_broadcast _ = false

pub is_unsynchronized : LeapIndicator → Bool
is_unsynchronized LeapIndicator.unsynchronized = true
is_unsynchronized _ = false

pub same_timestamp : NtpTimestamp → NtpTimestamp → Bool
same_timestamp a b = (a.secs == b.secs) && (a.frac == b.frac)

-- `reply.leap == Unsynchronized || reply.stratum == 0 || reply.stratum >= 16`.
pub no_time : NtpPacket → Bool
no_time p = is_unsynchronized p.leap || (p.stratum == 0) || leb 16 p.stratum

pub measure : NtpPacket → NtpPacket → ℤ → Outcome
measure request reply destination_unix_ns =
    let t1 = to_unix_ns_near request.transmit_timestamp destination_unix_ns in
    let t2 = to_unix_ns_near reply.receive_timestamp destination_unix_ns in
    let t3 = to_unix_ns_near reply.transmit_timestamp destination_unix_ns in
    let t4 = destination_unix_ns in
    let offset = ((t2 -ℤ t1) +ℤ (t3 -ℤ t4)) /ℤ 2 in
    let delay = (t4 -ℤ t1) -ℤ (t3 -ℤ t2) in
    if not (is_server reply.mode)
    then err not_a_reply
    else if not (reply.version == request.version)
    then err version_mismatch
    else if not (same_timestamp reply.origin_timestamp request.transmit_timestamp)
        || same_timestamp reply.transmit_timestamp zero_timestamp
    then err bogus
    else if no_time reply
    then err unsynchronized
    else ok (record {
      offset_ns = saturate_i64 offset;
      delay_ns = saturate_i64 delay;
      stratum = reply.stratum;
      root_dispersion_ns = to_nanos reply.root_dispersion;
    })

pub accept_broadcast : NtpPacket → ℤ → ℤ → Outcome
accept_broadcast broadcast destination_unix_ns delay_ns =
    let t3 = to_unix_ns_near broadcast.transmit_timestamp destination_unix_ns in
    let offset = (t3 -ℤ destination_unix_ns) +ℤ delay_ns /ℤ 2 in
    if not (is_broadcast broadcast.mode)
    then err not_a_broadcast
    else if same_timestamp broadcast.transmit_timestamp zero_timestamp
    then err bogus
    else if no_time broadcast
    then err unsynchronized
    else ok (record {
      offset_ns = saturate_i64 offset;
      delay_ns = delay_ns;
      stratum = broadcast.stratum;
      root_dispersion_ns = to_nanos broadcast.root_dispersion;
    })
