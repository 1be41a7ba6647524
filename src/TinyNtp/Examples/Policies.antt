-- ===== src/TinyNtp/Examples/Policies.antt =====
-- The theorems on the server's and the client's decisions at concrete inputs.
use pico_gnss.Base.{◌≡◌, ◌↔◌, refl, arith}
use pico_gnss.Base.Int.{ℤ, pos}
use pico_gnss.TinyNtp.Packet.{NtpPacket}
use pico_gnss.TinyNtp.Server.{
  ClockState, serve, gate, broadcast, respond, gate_epoch, is_unsynchronised_upstream, stratum,
}
use pico_gnss.TinyNtp.Server.Policy.{IsDisciplined, IsRequest}
use pico_gnss.TinyNtp.Server.Answers.{
  reply_packet, broadcast_packet, broadcast-eq-serve, respond-eq-serve,
}
use pico_gnss.TinyNtp.Client.{request}
use pico_gnss.TinyNtp.Examples.{gps_config, locked, now}

abbrev drifting : ClockState
drifting = record locked { holdover_ns = 4_000_000_000_000 }

abbrev question : NtpPacket
question = request now (pos 6)

question-IsRequest : IsRequest question
unfolding request
question-IsRequest = (refl, omega arith, omega arith)

abbrev announced : NtpPacket
announced = broadcast_packet gps_config locked now now

broadcast-eq-serve_example : (broadcast gps_config locked now ≡ serve announced) ↔ (
    (t : ℤ) × IsDisciplined gps_config locked t
    × (announced ≡ broadcast_packet gps_config locked t now))
broadcast-eq-serve_example = broadcast-eq-serve gps_config locked now announced

abbrev answer : NtpPacket
answer = reply_packet gps_config locked question now now now

respond-eq-serve_example : (respond gps_config locked question now now ≡ serve answer) ↔ (
    IsRequest question
    × ((t : ℤ) × IsDisciplined gps_config locked t
        × (answer ≡ reply_packet gps_config locked question t now now)))
respond-eq-serve_example = respond-eq-serve gps_config locked question now now answer

announcement : broadcast gps_config locked now ≡ serve announced
unfolding broadcast gate gate_epoch is_unsynchronised_upstream stratum
announcement = refl
