-- ===== src/TinyNtp/Examples.antt =====
-- Concrete runs of tiny-ntp, and its theorems at concrete inputs.
mod Exchanges
mod Policies
use pico_gnss.Base.{ℕ, ◌^◌, ◌≡◌, refl, true, some, List, [], ◌∷◌}
use pico_gnss.Base.Int.{ℤ, pos, negsuc, rem_euclid, div_euclid, ◌+ℤ◌}
use pico_gnss.Base.Bytes.{quad}
use pico_gnss.TinyNtp.Timestamp.{
  NtpTimestamp, from_unix_ns, to_unix_ns_near, nearest_era, to_unix_ns_in_era,
}
use pico_gnss.TinyNtp.Short.{zero_short}
use pico_gnss.TinyNtp.Packet.{NtpPacket}
use pico_gnss.TinyNtp.Server.{ServerConfig, ClockState, reference_clock, no_leap}

-- A stratum-1 server with a GNSS receiver, `GPS\0`, and a drift of 50 ppm in a holdover.
abbrev pub gps_config : ServerConfig
gps_config = record {
  precision = negsuc 19;
  poll = pos 4;
  source = reference_clock (quad 71 80 83 0);
  base_dispersion_ns = 1000;
  holdover_drift_ppb = 50_000;
  max_holdover_ns = 3_600_000_000_000;
}

abbrev pub now : ℤ
now = pos 1_700_000_000_000_000_000

abbrev pub locked : ClockState
locked = record {
  last_update_unix_ns = some now;
  holdover_ns = 500_000_000;
  frequency_locked = true;
  leap = no_leap;
}

-- 2036-02-07T06:28:16Z is the second 0 of era 1.
rollover : from_unix_ns (pos 2_085_978_496_000_000_000) ≡ record { secs = 0; frac = 0 }
unfolding from_unix_ns rem_euclid div_euclid ◌+ℤ◌
rollover = refl

half_second : from_unix_ns (pos 500_000_000) ≡ record { secs = 2_208_988_800; frac = 2 ^ 31 }
unfolding from_unix_ns rem_euclid div_euclid ◌+ℤ◌
half_second = refl

before_unix : from_unix_ns (negsuc 0) ≡ record { secs = 2_208_988_799; frac = 4_294_967_292 }
unfolding from_unix_ns rem_euclid div_euclid ◌+ℤ◌
before_unix = refl
