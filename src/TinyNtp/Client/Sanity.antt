-- ===== src/TinyNtp/Client/Sanity.antt =====
-- Which packets the client measures.
use pico_gnss.Base.{◌≤◌, ◌<◌, ◌≡◌, ◌≢◌, ◌↔◌, ◌⊎◌, arith, true, false}
use pico_gnss.Base.Int.{ℤ, saturate_i64, ◌+ℤ◌, ◌-ℤ◌, ◌/ℤ◌}
use pico_gnss.TinyNtp.Timestamp.{NtpTimestamp, zero_timestamp, to_unix_ns_near}
use pico_gnss.TinyNtp.Short.{to_nanos}
use pico_gnss.TinyNtp.Packet.{LeapIndicator, Mode, NtpPacket}
use pico_gnss.TinyNtp.Client.{
  Reject, not_a_reply, not_a_broadcast, version_mismatch, bogus, unsynchronized, Measurement, ok,
  err, is_server, is_broadcast, is_unsynchronized, same_timestamp, no_time, measure,
  accept_broadcast,
}

pub same_timestamp_iff : (a b : NtpTimestamp) → (same_timestamp a b ≡ true) ↔ (a ≡ b)
unfolding same_timestamp
same_timestamp_iff a b = (λ h. ground arith, λ h. ground arith)

-- A packet of a server that knows the time.
abbrev pub IsSynchronised : NtpPacket → Type 0
IsSynchronised p = (p.leap ≢ LeapIndicator.unsynchronized) × (1 ≤ p.stratum) × (p.stratum < 16)

no_time_iff : (p : NtpPacket) → (no_time p ≡ false) ↔ IsSynchronised p
unfolding no_time is_unsynchronized
no_time_iff p = (λ h. ground arith, λ h. ground arith)

-- A reply that answers this request.
abbrev pub IsReply : NtpPacket → NtpPacket → Type 0
IsReply request reply =
    (reply.mode ≡ Mode.server)
    × (reply.version ≡ request.version)
    × (reply.origin_timestamp ≡ request.transmit_timestamp)
    × (reply.transmit_timestamp ≢ zero_timestamp)
    × IsSynchronised reply

-- RFC 5905 section 8 over the four instants of an exchange, within the range of `i64`.
abbrev pub on_wire : ℤ → ℤ → ℤ → ℤ → NtpPacket → Measurement
on_wire t1 t2 t3 t4 reply = record {
  offset_ns = saturate_i64 (((t2 -ℤ t1) +ℤ (t3 -ℤ t4)) /ℤ 2);
  delay_ns = saturate_i64 ((t4 -ℤ t1) -ℤ (t3 -ℤ t2));
  stratum = reply.stratum;
  root_dispersion_ns = to_nanos reply.root_dispersion;
}

abbrev pub measured : NtpPacket → NtpPacket → ℤ → Measurement
measured request reply destination =
    on_wire (to_unix_ns_near request.transmit_timestamp destination)
      (to_unix_ns_near reply.receive_timestamp destination)
      (to_unix_ns_near reply.transmit_timestamp destination) destination reply

-- `measure` succeeds exactly for a server's reply of the request's version that echoes the
-- request's transmit timestamp, has a transmit timestamp of its own and comes from a synchronised
-- server, and the measurement is then RFC 5905's offset and delay of the four instants, clamped
-- to `i64`.
pub measure-eq-ok :
    (request reply : NtpPacket) (destination : ℤ) (m : Measurement)
    → (measure request reply destination ≡ ok m)
      ↔ (IsReply request reply × (m ≡ measured request reply destination))
unfolding measure is_server
measure-eq-ok request reply destination m =
    let origin = same_timestamp_iff reply.origin_timestamp request.transmit_timestamp in
    let unset = same_timestamp_iff reply.transmit_timestamp zero_timestamp in
    (
      λ h. ground (arith, origin, unset, no_time_iff reply),
      λ h. ground (arith, origin, unset, no_time_iff reply),
    )

-- The reason for a refusal names the first check that fails, in the order of the checks.
abbrev pub IsRejection : NtpPacket → NtpPacket → Reject → Type 0
IsRejection request reply not_a_reply = reply.mode ≢ Mode.server
IsRejection request reply version_mismatch =
    (reply.mode ≡ Mode.server) × (reply.version ≢ request.version)
IsRejection request reply bogus =
    (reply.mode ≡ Mode.server)
    × (reply.version ≡ request.version)
    × ((reply.origin_timestamp ≢ request.transmit_timestamp)
        ⊎ (reply.transmit_timestamp ≡ zero_timestamp))
IsRejection request reply unsynchronized =
    (reply.mode ≡ Mode.server)
    × (reply.version ≡ request.version)
    × (reply.origin_timestamp ≡ request.transmit_timestamp)
    × (reply.transmit_timestamp ≢ zero_timestamp)
    × ((reply.leap ≡ LeapIndicator.unsynchronized) ⊎ ((reply.stratum ≡ 0) ⊎ (16 ≤ reply.stratum)))
IsRejection request reply not_a_broadcast = ⊥

no_time-true_iff :
    (p : NtpPacket)
    → (no_time p ≡ true)
      ↔ ((p.leap ≡ LeapIndicator.unsynchronized) ⊎ ((p.stratum ≡ 0) ⊎ (16 ≤ p.stratum)))
unfolding no_time is_unsynchronized
no_time-true_iff p = (λ h. ground arith, λ h. ground arith)

module _ (request reply : NtpPacket) (destination : ℤ) where
  origin_iff :
      (same_timestamp reply.origin_timestamp request.transmit_timestamp ≡ true)
      ↔ (reply.origin_timestamp ≡ request.transmit_timestamp)
  origin_iff = same_timestamp_iff reply.origin_timestamp request.transmit_timestamp

  unset_iff :
      (same_timestamp reply.transmit_timestamp zero_timestamp ≡ true)
      ↔ (reply.transmit_timestamp ≡ zero_timestamp)
  unset_iff = same_timestamp_iff reply.transmit_timestamp zero_timestamp

  -- `measure` refuses with a reason exactly when that reason names the first of its four checks
  -- that fails, in their order; `not_a_broadcast` is never given.
  pub measure-eq-err :
      (r : Reject) → (measure request reply destination ≡ err r) ↔ IsRejection request reply r
  unfolding measure is_server
  measure-eq-err not_a_broadcast = (λ h. ground arith, λ h. ground arith)
  measure-eq-err not_a_reply = (
    λ h. ground (arith, origin_iff, unset_iff, no_time-true_iff reply),
    λ h. ground (arith, origin_iff, unset_iff, no_time-true_iff reply),
  )
  measure-eq-err version_mismatch = (
    λ h. ground (arith, origin_iff, unset_iff, no_time-true_iff reply),
    λ h. ground (arith, origin_iff, unset_iff, no_time-true_iff reply),
  )
  measure-eq-err bogus = (
    λ h. ground (arith, origin_iff, unset_iff, no_time-true_iff reply),
    λ h. ground (arith, origin_iff, unset_iff, no_time-true_iff reply),
  )
  measure-eq-err unsynchronized = (
    λ h. ground (arith, origin_iff, unset_iff, no_time-true_iff reply),
    λ h. ground (arith, origin_iff, unset_iff, no_time-true_iff reply),
  )

-- A broadcast that can be taken.
abbrev pub IsBroadcast : NtpPacket → Type 0
IsBroadcast p =
    (p.mode ≡ Mode.broadcast) × (p.transmit_timestamp ≢ zero_timestamp) × IsSynchronised p

-- The offset of a broadcast is its departure less its arrival, and half the assumed delay.
abbrev pub heard : NtpPacket → ℤ → ℤ → Measurement
heard p destination delay_ns = record {
  offset_ns =
      saturate_i64
        ((to_unix_ns_near p.transmit_timestamp destination -ℤ destination) +ℤ delay_ns /ℤ 2);
  delay_ns = delay_ns;
  stratum = p.stratum;
  root_dispersion_ns = to_nanos p.root_dispersion;
}

-- `accept_broadcast` succeeds exactly for a broadcast with a transmit timestamp from a
-- synchronised server, and the offset is then the departure less the arrival plus half the given
-- delay, clamped to `i64`.
pub accept_broadcast-eq-ok :
    (p : NtpPacket) (destination delay_ns : ℤ) (m : Measurement)
    → (accept_broadcast p destination delay_ns ≡ ok m)
      ↔ (IsBroadcast p × (m ≡ heard p destination delay_ns))
unfolding accept_broadcast is_broadcast
accept_broadcast-eq-ok p destination delay_ns m =
    let unset = same_timestamp_iff p.transmit_timestamp zero_timestamp in
    (λ h. ground (arith, unset, no_time_iff p), λ h. ground (arith, unset, no_time_iff p))
