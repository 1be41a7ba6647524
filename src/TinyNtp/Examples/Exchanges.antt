-- ===== src/TinyNtp/Examples/Exchanges.antt =====
-- The theorems on timestamps, packets and exchanges at concrete inputs.
use pico_gnss.Base.{ℕ, ◌≡◌, ◌≢◌, refl, arith, some, List, [], ◌∷◌, ◌++◌, replicate}
use pico_gnss.Base.Int.{ℤ, pos, negsuc, ◌+ℤ◌, ◌-ℤ◌, ◌/ℤ◌, rem_euclid, div_euclid}
use pico_gnss.TinyNtp.Timestamp.{from_unix_ns, to_unix_ns_near, zero_timestamp}
use pico_gnss.TinyNtp.Timestamp.Era.{near-from_unix_ns}
use pico_gnss.TinyNtp.Packet.{NtpPacket, IsPacket, encode, decode}
use pico_gnss.TinyNtp.Packet.RoundTrip.{decode-encode}
use pico_gnss.TinyNtp.Server.{
  serve, respond, broadcast, gate, gate_epoch, is_unsynchronised_upstream, stratum, is_client,
}
use pico_gnss.TinyNtp.Server.Answers.{reply_packet, broadcast_packet}
use pico_gnss.TinyNtp.Client.Wire.{measure_wire_exchange}
use pico_gnss.TinyNtp.Client.{Measurement, ok, request, measure, accept_broadcast}
use pico_gnss.TinyNtp.Client.Exchange.{
  measure_exchange, accept_broadcast_exchange, arrival, departure, destination,
}
use pico_gnss.TinyNtp.Examples.{gps_config, locked, now}

-- An instant of era 1, seen from era 0.
near-from_unix_ns_example :
    to_unix_ns_near (from_unix_ns (pos 2_085_978_497_000_000_001)) now
    ≡ pos 2_085_978_497_000_000_001
unfolding ◌-ℤ◌
near-from_unix_ns_example =
    near-from_unix_ns (pos 2_085_978_497_000_000_001) now (omega arith) (omega arith)

abbrev asked : NtpPacket
asked = request now (pos 4)

asked-IsPacket : IsPacket asked
unfolding request from_unix_ns rem_euclid div_euclid ◌+ℤ◌
asked-IsPacket = record {
  version_fits = omega arith;
  stratum_fits = omega arith;
  poll_fits = omega arith;
  precision_fits = omega arith;
  root_delay_fits = omega arith;
  root_dispersion_fits = omega arith;
  reference_id_fits = omega arith;
  reference_fits = omega arith;
  origin_fits = omega arith;
  receive_fits = omega arith;
  transmit_fits = omega arith;
}

decode-encode_example : decode (encode asked ++ 1 ∷ 2 ∷ []) ≡ some asked
decode-encode_example = decode-encode asked (1 ∷ 2 ∷ []) asked-IsPacket

abbrev wire : List ℕ
wire = 0xe3 ∷ replicate 50 7

-- A path of 2 ms out and 6 ms back, a server that works for 1 ms and is 3 s behind.
abbrev lead : ℤ
lead = negsuc 2_999_999_999

abbrev arrived : ℤ
arrived = arrival now lead 2_000_000 1_000_000 6_000_000

abbrev left : ℤ
left = departure now lead 2_000_000 1_000_000 6_000_000

abbrev reply : NtpPacket
reply = reply_packet gps_config locked asked now arrived left

replied : respond gps_config locked asked arrived left ≡ serve reply
unfolding respond is_client request gate gate_epoch is_unsynchronised_upstream stratum
replied = refl

left_is_set : from_unix_ns left ≢ zero_timestamp
unfolding from_unix_ns rem_euclid div_euclid ◌+ℤ◌ ◌-ℤ◌
left_is_set = λ e. ground arith

measure_exchange_example :
    (m : Measurement) × (measure asked reply (destination now lead 2_000_000 1_000_000 6_000_000)
      ≡ ok m)
    × (m.delay_ns ≡ pos 8_000_000)
    × (m.offset_ns ≡ negsuc 3_001_999_999)
unfolding ◌-ℤ◌ ◌+ℤ◌ ◌/ℤ◌
measure_exchange_example =
    measure_exchange gps_config locked (pos 4) now lead 2_000_000 1_000_000 6_000_000 reply replied
      left_is_set (omega arith) (omega arith) (omega arith) (omega arith) (omega arith)

measure_wire_exchange_example :
    (question : NtpPacket) × (told : NtpPacket) × (read : NtpPacket) × (m : Measurement) × (decode
        (encode asked ++ 1 ∷ [])
      ≡ some question)
    × (respond gps_config locked question arrived left ≡ serve told)
    × (decode (encode told ++ []) ≡ some read)
    × (measure asked read (destination now lead 2_000_000 1_000_000 6_000_000) ≡ ok m)
    × (m.delay_ns ≡ pos 8_000_000)
    × (m.offset_ns ≡ negsuc 3_001_999_999)
unfolding ◌-ℤ◌ ◌+ℤ◌ ◌/ℤ◌
measure_wire_exchange_example =
    measure_wire_exchange gps_config locked (pos 4) now lead 2_000_000 1_000_000 6_000_000 now
      (1 ∷ []) [] (omega arith) (omega arith) (refl, refl, omega arith, tt) left_is_set
      (omega arith) (omega arith) (omega arith) (omega arith) (omega arith)

abbrev announced : NtpPacket
announced = broadcast_packet gps_config locked now (now -ℤ pos 400_000 +ℤ pos 1_000)

announcement : broadcast gps_config locked (now -ℤ pos 400_000 +ℤ pos 1_000) ≡ serve announced
unfolding broadcast gate gate_epoch is_unsynchronised_upstream stratum
announcement = refl

announcement_is_set : from_unix_ns (now -ℤ pos 400_000 +ℤ pos 1_000) ≢ zero_timestamp
unfolding from_unix_ns rem_euclid div_euclid ◌+ℤ◌ ◌-ℤ◌
announcement_is_set = λ e. ground arith

accept_broadcast_exchange_example :
    (m : Measurement) × (accept_broadcast announced now (pos 800_000) ≡ ok m)
    × (m.offset_ns ≡ pos 1_000)
    × (m.delay_ns ≡ pos 800_000)
unfolding ◌-ℤ◌ ◌+ℤ◌ ◌/ℤ◌
accept_broadcast_exchange_example =
    accept_broadcast_exchange gps_config locked now (pos 1_000) 400_000 announced announcement
      announcement_is_set (omega arith) (omega arith)
