-- ===== src/TinyNtp/Client/Wire.antt =====
-- A whole exchange as bytes: what the client and the server read is what came over the line.
use pico_gnss.Base.{ℕ, ◌+◌, ◌^◌, ◌<◌, ◌≡◌, ◌≢◌, refl, arith, some, List, ◌++◌}
use pico_gnss.Base.Int.{ℤ, pos, ◌+ℤ◌, ◌-ℤ◌, ◌/ℤ◌, IsI64, IsI8}
use pico_gnss.TinyNtp.Timestamp.{zero_timestamp, from_unix_ns}
use pico_gnss.TinyNtp.Timestamp.RoundTrip.{from_unix_ns-IsTimestamp}
use pico_gnss.TinyNtp.Packet.{NtpPacket, IsPacket, encode, decode}
use pico_gnss.TinyNtp.Packet.RoundTrip.{decode-encode}
use pico_gnss.TinyNtp.Server.{ServerConfig, ClockState, serve, respond}
use pico_gnss.TinyNtp.Server.Policy.{IsDisciplined}
use pico_gnss.TinyNtp.Server.Answers.{IsConfig, reply_packet, respond-eq-serve}
use pico_gnss.TinyNtp.Server.Wire.{decode-respond}
use pico_gnss.TinyNtp.Client.{Measurement, ok, request, measure}
use pico_gnss.TinyNtp.Client.Exchange.{
  IsNear, arrival, departure, destination, request-IsRequest, measure_exchange,
}

request-IsPacket : (t poll : ℤ) → IsI8 poll → IsPacket (request t poll)
unfolding request
request-IsPacket t poll h = record {
  version_fits = omega arith;
  stratum_fits = omega arith;
  poll_fits = h;
  precision_fits = omega arith;
  root_delay_fits = omega arith;
  root_dispersion_fits = omega arith;
  reference_id_fits = omega arith;
  reference_fits = omega arith;
  origin_fits = omega arith;
  receive_fits = omega arith;
  transmit_fits = from_unix_ns-IsTimestamp t;
}

module _ (cfg : ServerConfig) (state : ClockState) (poll t1 lead : ℤ) (out work back : ℕ) where
  -- A request that was sent at `t1` is read from its bytes, a disciplined server answers what was
  -- read, and the client reads the answer's bytes and measures the path and the lead: the delay
  -- is `out + back`, and the offset is half of `2 * lead + out - back`, rounded toward zero. The
  -- bytes behind a packet do not count. The configuration and the poll interval are in the ranges
  -- of their types, the instants are `i64` values within 68 years of the destination, the delay
  -- and the offset fit an `i64`, and the reply's transmit timestamp is not the all-zero one.
  pub measure_wire_exchange :
      (last_update : ℤ) (asked_rest told_rest : List ℕ)
      → IsConfig cfg
      → IsI8 poll
      → IsDisciplined cfg state last_update
      → from_unix_ns (departure t1 lead out work back) ≢ zero_timestamp
      → IsNear t1 (destination t1 lead out work back)
      → IsNear (arrival t1 lead out work back) (destination t1 lead out work back)
      → IsNear (departure t1 lead out work back) (destination t1 lead out work back)
      → out + back < 2 ^ 63
      → IsI64 ((lead +ℤ lead +ℤ (pos out -ℤ pos back)) /ℤ 2)
      → (asked : NtpPacket) × (told : NtpPacket) × (read : NtpPacket) × (m : Measurement) × (decode
            (encode (request t1 poll) ++ asked_rest)
          ≡ some asked)
        × (respond cfg state asked (arrival t1 lead out work back) (departure t1 lead out work back)
            ≡ serve told)
        × (decode (encode told ++ told_rest) ≡ some read)
        × (measure (request t1 poll) read (destination t1 lead out work back) ≡ ok m)
        × (m.delay_ns ≡ pos (out + back))
        × (m.offset_ns ≡ (lead +ℤ lead +ℤ (pos out -ℤ pos back)) /ℤ 2)
  measure_wire_exchange last_update asked_rest told_rest fits poll_fits disciplined sent sent_near
        arrived_near left_near short half =
      let asked = request t1 poll in
      let arrived = arrival t1 lead out work back in
      let left = departure t1 lead out work back in
      let told = reply_packet cfg state asked last_update arrived left in
      let served =
        (respond-eq-serve cfg state asked arrived left told).1
          (request-IsRequest t1 poll, (last_update, disciplined, refl)) in
      let (m, e, delay, offset) =
        measure_exchange cfg state poll t1 lead out work back told served sent sent_near
          arrived_near left_near short half in
      (
        asked,
        told,
        told,
        m,
        decode-encode asked asked_rest (request-IsPacket t1 poll poll_fits),
        served,
        decode-respond cfg state told fits asked arrived left told_rest
            (request-IsPacket t1 poll poll_fits) served,
        e,
        delay,
        offset,
      )
