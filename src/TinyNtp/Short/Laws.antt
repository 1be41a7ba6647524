-- ===== src/TinyNtp/Short/Laws.antt =====
-- What the 16.16 format keeps of a number of nanoseconds.
use pico_gnss.Base.{ℕ, ◌+◌, ◌*◌, ◌/◌, ◌-◌, ◌<◌, ◌≤◌, ◌≡◌, arith, min}
use pico_gnss.TinyNtp.Timestamp.{nanos_per_sec}
use pico_gnss.TinyNtp.Short.{NtpShort, IsShort, u32_max, from_nanos, to_nanos}

-- The nearest multiple of 2 ^ -16 s, up to the ceiling.
pub from_nanos-eq :
    (nanos : ℕ)
    → (from_nanos nanos).bits ≡ min u32_max ((nanos * 65536 + nanos_per_sec / 2) / nanos_per_sec)
unfolding from_nanos
from_nanos-eq nanos = ground arith

pub from_nanos-IsShort : (nanos : ℕ) → IsShort (from_nanos nanos)
from_nanos-IsShort nanos = omega (arith, from_nanos-eq nanos)

-- More nanoseconds never give a smaller value: no wrap advertises a better clock.
pub from_nanos_mono : (m n : ℕ) → m ≤ n → (from_nanos m).bits ≤ (from_nanos n).bits
from_nanos_mono m n h = omega (arith, from_nanos-eq m, from_nanos-eq n)

-- Every 32-bit value of the 16.16 format is read back from its nanoseconds.
pub from_nanos-to_nanos : (s : NtpShort) → IsShort s → from_nanos (to_nanos s) ≡ s
unfolding to_nanos
from_nanos-to_nanos s h = ground (arith, from_nanos-eq (to_nanos s))

-- Below the ceiling the rounding is off by 7630 ns at most, half a unit and half a nanosecond.
pub to_nanos-from_nanos :
    (nanos : ℕ)
    → nanos < 65536 * nanos_per_sec - 7630
    → (nanos ≤ to_nanos (from_nanos nanos) + 7630) × (to_nanos (from_nanos nanos) ≤ nanos + 7630)
unfolding to_nanos
to_nanos-from_nanos nanos h = omega (arith, from_nanos-eq nanos)
