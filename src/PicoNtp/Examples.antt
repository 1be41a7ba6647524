-- ===== src/PicoNtp/Examples.antt =====
-- The theorems about the NTP server's firmware at concrete inputs.
use pico_gnss.Base.{ℕ, ◌≡◌, ◌⊎◌, ◌↔◌, refl, arith, true, none, some, List, [], ◌∷◌}
use pico_gnss.Base.Int.{ℤ, pos, ◌+ℤ◌, ◌-ℤ◌, ◌*ℤ◌, ◌/ℤ◌, ◌≤ℤ◌, rem_euclid, div_euclid}
use pico_gnss.Base.Int.Scale.{◌×ℤ◌}
use pico_gnss.Pico10baseT.Frame.{frame_len}
use pico_gnss.Pico10baseT.Phy.{encoded_words}
use pico_gnss.TinyNtp.Packet.{NtpPacket}
use pico_gnss.TinyNtp.Server.{
  serve, broadcast, silent_reason, gate, gate_epoch, is_unsynchronised_upstream, stratum,
}
use pico_gnss.TinyNtp.Server.Answers.{broadcast_packet}
use pico_gnss.RpPps.TimeSync.{same_second}
use pico_gnss.RpPps.Gpsdo.{PpsGpsdo, zda, with_config, time_from_query_ns}
use pico_gnss.Gnssdo.Clock.{is_locked}
use pico_gnss.Gnssdo.Clock.Readout.{holdover_ns, now_from_query_ns, corrected, drift_of}
use pico_gnss.PicoNtp.Config.{
  port_digits, Reading, clock_state, cfg, parse_port, tx_lag_ns, frame_size, symbol_words,
}
use pico_gnss.PicoNtp.Task.{Round, first_state, next_target, sleep_us, fresher, ntp_round, transmit}
use pico_gnss.PicoNtp.Task.Buffers.{HasBuffers}
use pico_gnss.PicoNtp.Task.Steps.{packet_state}
use pico_gnss.PicoNtp.Task.Buffers.{ntp_spec}
use pico_gnss.PicoNtp.Task.Transmissions.{IsTransmission, ntp_round-IsTransmission}
use pico_gnss.PicoNtp.Task.Runs.{IsRising, targets, run_task, run_task-IsRising, ntp_round_due}
use pico_gnss.PicoNtp.Link.{
  Uart, UartRead, received, failed, is_talker, listen, listen_bytes, send_pmtk, pmtk_line,
  raise_baud, try_baud, probe_gnss_baud, settle, establish_gnss_link, source_trusted,
}
use pico_gnss.PicoNtp.Link.Rates.{FindsFast, establish_gnss_link-baud, source_trusted_iff}
use pico_gnss.PicoNtp.Link.Command.{feed-pmtk_line}
use pico_gnss.RpPps.Assembler.{
  dollar, carriage_return, new, push, nmea_checksum, nmea_checksum_valid,
}
use pico_gnss.RpPps.Assembler.Framing.{feed}
use pico_gnss.RpPps.Assembler.Sums.{framed}
use pico_gnss.Pico10baseT.Frame.Layout.{sent_frame}
use pico_gnss.Pico10baseT.Phy.Line.{line}
use pico_gnss.Base.{length, if◌then◌else◌, ◌==◌}

abbrev fresh : PpsGpsdo
fresh = with_config zda same_second

-- A locked clock, with an epoch at the query time of five seconds.
abbrev set_clock : PpsGpsdo
set_clock = record fresh {
  clock = record (fresh.clock) {
    clock = record (fresh.clock.clock) {
      samples = 20;
      epoch_query_ns = some 5_000_000_000;
      epoch_unix_ns = some (pos 1_700_000_000_000_000_000);
      last_query_ns = some 5_000_000_000;
    };
  };
}

abbrev at : ℕ → Reading
at query_ns = record { clock = set_clock; query_ns = query_ns }

-- Ten milliseconds before a second.
abbrev round : Round
round = record {
  trusted = true;
  top = at 5_990_000_000;
  build = at 5_990_100_000;
  before_wait = at 5_991_000_000;
  handover = at 6_000_118_000;
}

first-HasBuffers : HasBuffers first_state
first-HasBuffers = record {
  frame_fits = unfold frame_size frame_len in refl;
  symbols_fit = unfold symbol_words frame_size frame_len encoded_words in refl;
}

abbrev now : ℤ
now = pos 1_700_000_000_990_000_000

top_read : (clock_state round.top).0 ≡ some now
unfolding clock_state time_from_query_ns now_from_query_ns corrected drift_of ◌×ℤ◌ ◌+ℤ◌ ◌-ℤ◌ ◌/ℤ◌
    rem_euclid
top_read = refl

abbrev second : ℤ
second = pos 1_700_000_001_000_000_000

target_second : next_target now (first_state.last_target_ns) ≡ second
unfolding next_target div_euclid ◌+ℤ◌ ◌*ℤ◌
target_second = refl

-- The last update, by the clock as it is at the build.
abbrev updated : ℤ
updated = pos 1_700_000_000_000_000_000

abbrev packet : NtpPacket
packet =
    broadcast_packet cfg (packet_state round) updated
      (next_target now (first_state.last_target_ns) +ℤ pos tx_lag_ns)

packet_served :
    broadcast cfg
      (packet_state round)
      (next_target now (first_state.last_target_ns) +ℤ pos tx_lag_ns)
    ≡ serve packet
unfolding broadcast gate gate_epoch is_unsynchronised_upstream stratum fresher clock_state
    time_from_query_ns now_from_query_ns corrected drift_of holdover_ns is_locked ◌×ℤ◌ ◌+ℤ◌ ◌-ℤ◌
    ◌/ℤ◌ rem_euclid
packet_served = refl

gate_open : silent_reason cfg (clock_state round.handover).1 ≡ none
unfolding silent_reason gate gate_epoch is_unsynchronised_upstream stratum clock_state
    time_from_query_ns now_from_query_ns corrected drift_of holdover_ns is_locked ◌×ℤ◌ ◌+ℤ◌ ◌-ℤ◌
    ◌/ℤ◌ rem_euclid
gate_open = refl

near_second : next_target now (first_state.last_target_ns) ≤ℤ now +ℤ pos 16_000_000
near_second = rw target_second (unfold ◌+ℤ◌ in omega arith)

abbrev words : List ℕ
words = line (sent_frame (ntp_spec 123 1 packet))

ntp_round_due_example :
    (ntp_round 123 first_state round).1
    ≡ transmit
        (next_target now (first_state.last_target_ns))
        (sleep_us (next_target now (first_state.last_target_ns)) (clock_state round.before_wait).0)
        words
ntp_round_due_example =
    ntp_round_due 123 first_state round now packet first-HasBuffers refl top_read near_second
      packet_served gate_open

sent_words :
    (ntp_round 123 first_state round).1
    ≡ transmit
        (next_target now (first_state.last_target_ns))
        (sleep_us (next_target now (first_state.last_target_ns)) (clock_state round.before_wait).0)
        words
sent_words =
    ntp_round_due 123 first_state round now packet first-HasBuffers refl top_read near_second
      packet_served gate_open

ntp_round-IsTransmission_example :
    IsTransmission 123 first_state round (next_target now (first_state.last_target_ns)) words
ntp_round-IsTransmission_example =
    ntp_round-IsTransmission 123 first_state round (omega arith)
      (next_target now (first_state.last_target_ns))
      (sleep_us (next_target now (first_state.last_target_ns)) (clock_state round.before_wait).0)
      words first-HasBuffers sent_words

run_task-IsRising_example :
    IsRising (first_state.last_target_ns) (targets (run_task 123 first_state (round ∷ round ∷ [])))
run_task-IsRising_example = run_task-IsRising 123 first_state (round ∷ round ∷ []) first-HasBuffers

-- A receiver that is heard at 9600 baud until it is told to change its rate.
abbrev slow_then_fast : Uart → List UartRead
slow_then_fast u =
    if u.baud == (if length u.written == 0 then 9600 else 115_200)
    then received (dollar ∷ 71 ∷ 80 ∷ carriage_return ∷ []) ∷ []
    else failed ∷ []

abbrev port : Uart
port = record { baud = 9600; written = []; listened = 0 }

raised : source_trusted slow_then_fast port ≡ true
unfolding source_trusted establish_gnss_link settle probe_gnss_baud try_baud listen listen_bytes
    is_talker push send_pmtk pmtk_line nmea_checksum
raised = refl

establish_gnss_link-baud_example :
    (establish_gnss_link slow_then_fast port).0.baud
    ≡ (elim (probe_gnss_baud slow_then_fast port).1 [
      | none ↦ 115_200
      | some rate ↦ (establish_gnss_link slow_then_fast port).1
    ])
establish_gnss_link-baud_example = establish_gnss_link-baud slow_then_fast port

source_trusted_iff_example : (source_trusted slow_then_fast port ≡ true) ↔ (
    FindsFast slow_then_fast port
    ⊎ (((probe_gnss_baud slow_then_fast port).1 ≡ some 9600)
        × FindsFast slow_then_fast
            (send_pmtk 64 (probe_gnss_baud slow_then_fast port).0 raise_baud)))
source_trusted_iff_example = source_trusted_iff slow_then_fast port

feed-pmtk_line_example :
    ((feed new (pmtk_line raise_baud)).1 ≡ framed raise_baud ∷ [])
    × (nmea_checksum_valid (framed raise_baud) ≡ true)
feed-pmtk_line_example =
    feed-pmtk_line new raise_baud (omega arith) (ground arith) (ground arith) (omega arith)

-- A port number is read, one that is too large is refused.
port_read : parse_port (49 ∷ 48 ∷ 49 ∷ 50 ∷ 51 ∷ []) ≡ some 10_123
unfolding parse_port port_digits
port_read = refl

port_refused : parse_port (54 ∷ 53 ∷ 53 ∷ 51 ∷ 54 ∷ []) ≡ none
unfolding parse_port port_digits
port_refused = refl
