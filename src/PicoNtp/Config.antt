-- ===== src/PicoNtp/Config.antt =====
-- pico-ntp/src/main.rs: the constants of the server, its port, and its reading of the clock.
use pico_gnss.Base.{
  ℕ, ◌+◌, ◌-◌, ◌*◌, ltb, leb, if◌then◌else◌, ◌&&◌, Option, none, some, List, [], ◌∷◌,
}
use pico_gnss.Base.Int.{ℤ, pos, negsuc, ◌-ℤ◌, to_i64}
use pico_gnss.Base.Bytes.{quad}
use pico_gnss.Pico10baseT.Frame.{
  MacAddr, Ipv4Addr, mac_broadcast, ip_broadcast, UdpFrameSpec, frame_len,
}
use pico_gnss.Pico10baseT.Phy.{encoded_words}
use pico_gnss.TinyNtp.Packet.{packet_len}
use pico_gnss.TinyNtp.Server.{ServerConfig, ClockState, reference_clock, no_leap}
use pico_gnss.Gnssdo.Clock.{is_locked}
use pico_gnss.Gnssdo.Clock.Readout.{holdover_ns}
use pico_gnss.RpPps.Gpsdo.{PpsGpsdo, time_from_query_ns}

abbrev pub src_mac : MacAddr
src_mac = record { a = 0x02; b = 0x00; rest = quad 0x00 0xC0 0xFF 0xEE }

abbrev pub src_ip : Ipv4Addr
src_ip = quad 192 168 0 200

abbrev pub src_port : ℕ
src_port = 123

-- The digits of `NTP_DST_PORT`; `none` where an `assert!` fails the build.
unfoldable pub port_digits : ℕ → List ℕ → Option ℕ
port_digits value [] = some value
port_digits value (digit ∷ bytes) =
    let next = value * 10 + (digit - 48) in
    let rest = port_digits next bytes in
    if leb 48 digit && leb digit 57 then if ltb 65535 next then none else rest else none

unfoldable pub parse_port : List ℕ → Option ℕ
parse_port [] = none
parse_port (digit ∷ bytes) = port_digits 0 (digit ∷ bytes)

-- `DST_PORT`: what the environment of the build says, or 123.
abbrev pub dst_port : Option (List ℕ) → Option ℕ
dst_port none = some 123
dst_port (some digits) = parse_port digits

abbrev pub handover_lag_ns : ℕ
handover_lag_ns = 118_400

abbrev pub wire_lag_ns : ℕ
wire_lag_ns = 117_800

abbrev pub tx_lag_ns : ℕ
tx_lag_ns = handover_lag_ns + wire_lag_ns

abbrev pub cfg : ServerConfig
cfg = record {
  precision = negsuc 14;
  poll = pos 0;
  source = reference_clock (quad 71 80 83 0);
  base_dispersion_ns = 1_000_000;
  holdover_drift_ppb = 1_000;
  max_holdover_ns = 3_600_000_000_000;
}

-- `FRAME_LEN` and `SYMBOL_WORDS`, the lengths of the two buffers.
unfoldable pub frame_size : ℕ
frame_size = frame_len packet_len

unfoldable pub symbol_words : ℕ
symbol_words = encoded_words frame_size

-- `NLP_INTERVAL_US`.
abbrev pub nlp_us : ℕ
nlp_us = 16_000

-- What one lock of `CLOCK` sees: the clock, and the query time.
pub record Reading : Type 0 where
  pub clock : PpsGpsdo
  pub query_ns : ℕ

-- `now.map(|n| n - holdover_ns as i64)`.
abbrev pub updated_at : Option ℤ → ℕ → Option ℤ
updated_at none held = none
updated_at (some n) held = some (n -ℤ to_i64 (pos held))

unfoldable pub clock_state : Reading → Option ℤ × ClockState
clock_state r =
    let clock = r.clock.clock.clock in
    let now = time_from_query_ns r.clock r.query_ns in
    let held = holdover_ns clock r.query_ns in
    (
      now,
      record {
        last_update_unix_ns = updated_at now held;
        holdover_ns = held;
        frequency_locked = is_locked clock;
        leap = no_leap;
      },
    )

abbrev pub udp_spec : ℕ → ℕ → List ℕ → UdpFrameSpec
udp_spec port ip_id payload = record {
  src_mac = src_mac;
  dst_mac = mac_broadcast;
  src_ip = src_ip;
  dst_ip = ip_broadcast;
  src_port = src_port;
  dst_port = port;
  ip_id = ip_id;
  ttl = 1;
  payload = payload;
}
