-- ===== src/TinyNtp/Short.antt =====
-- tiny-ntp/src/timestamp.rs: `NtpShort`, the 16.16 format of root delay and root dispersion.
-- The argument of `from_nanos` is a `u64`; no product below reaches `2 ^ 64` for such a value.
pub mod Laws
use pico_gnss.Base.{ℕ, ◌+◌, ◌*◌, ◌/◌, ◌%◌, ◌^◌, ◌-◌, ◌<◌, ltb, if◌then◌else◌}
use pico_gnss.TinyNtp.Timestamp.{nanos_per_sec}

-- `NtpShort(u32)`.
pub record NtpShort : Type 0 where
  pub bits : ℕ

abbrev pub IsShort : NtpShort → Type 0
IsShort s = s.bits < 2 ^ 32

abbrev pub zero_short : NtpShort
zero_short = record { bits = 0 }

abbrev pub u32_max : ℕ
u32_max = 2 ^ 32 - 1

unfoldable pub from_bits : ℕ → NtpShort
from_bits bits = record { bits = bits }

unfoldable pub to_bits : NtpShort → ℕ
to_bits s = s.bits

pub from_nanos : ℕ → NtpShort
from_nanos nanos =
    let secs = nanos / nanos_per_sec in
    let rem = nanos % nanos_per_sec in
    let frac = (rem * 65536 + nanos_per_sec / 2) / nanos_per_sec in
    let bits = secs * 2 ^ 16 + frac in
    if ltb 65535 secs
    then record { bits = u32_max }
    else if ltb u32_max bits
    then record { bits = u32_max }
    else record { bits = bits }

pub to_nanos : NtpShort → ℕ
to_nanos s =
    let secs = s.bits / 2 ^ 16 in
    let frac = s.bits % 2 ^ 16 in secs * nanos_per_sec + (frac * nanos_per_sec + 32768) / 65536
