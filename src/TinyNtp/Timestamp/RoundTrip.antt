-- ===== src/TinyNtp/Timestamp/RoundTrip.antt =====
-- Timestamps and nanoseconds: what a conversion and its inverse keep.
use pico_gnss.Base.{◌+◌, ◌*◌, ◌/◌, ◌%◌, ◌^◌, ◌<◌, ◌≡◌, arith, ap, ◌∙◌, ℕ}
use pico_gnss.Base.Int.{
  ℤ, pos, ◌+ℤ◌, ◌-ℤ◌, ◌*ℤ◌, div_euclid, rem_euclid, IsI64, int_laws, saturate_i64, saturate_i64-eq,
  euclid_parts,
}
use pico_gnss.Base.Bits.{or_disjoint}
use pico_gnss.TinyNtp.Timestamp.{
  NtpTimestamp, IsTimestamp, nanos_per_sec, ntp_unix_offset_secs, era_secs, from_bits, to_bits,
  ntp_full, era_of_unix_ns, from_unix_ns, to_unix_ns_in_era,
}

pub from_unix_ns-IsTimestamp : (unix_ns : ℤ) → IsTimestamp (from_unix_ns unix_ns)
unfolding from_unix_ns rem_euclid div_euclid ◌+ℤ◌
from_unix_ns-IsTimestamp unix_ns = ground arith

pub from_bits-to_bits : (t : NtpTimestamp) → IsTimestamp t → from_bits (to_bits t) ≡ t
unfolding from_bits to_bits
from_bits-to_bits t h = rw (or_disjoint 32 t.secs t.frac h.1) (ground arith)

pub to_bits-from_bits : (bits : ℕ) → bits < 2 ^ 64 → to_bits (from_bits bits) ≡ bits
unfolding from_bits to_bits
to_bits-from_bits bits h =
    rw (or_disjoint 32 (bits / 2 ^ 32 % 2 ^ 32) (bits % 2 ^ 32) (omega arith)) (ground arith)

-- A whole number of nanoseconds survives the fraction of 2 ^ -32 s, which is finer.
fraction-nanos :
    (nanos : ℕ)
    → nanos < nanos_per_sec
    → ((nanos * 2 ^ 32 + 500_000_000) / nanos_per_sec % 2 ^ 32 * nanos_per_sec + 2 ^ 31) / 2 ^ 32
      ≡ nanos
fraction-nanos nanos h = omega arith

-- Before it saturates, the conversion back gives the instant itself.
exact_instant :
    (unix_ns : ℤ)
    → let full = ntp_full unix_ns in
      (div_euclid full era_secs *ℤ era_secs
            +ℤ pos (rem_euclid full era_secs)
            -ℤ pos ntp_unix_offset_secs)
          *ℤ nanos_per_sec
        +ℤ pos (rem_euclid unix_ns nanos_per_sec)
      ≡ unix_ns
exact_instant unix_ns = omega (
  int_laws,
  euclid_parts unix_ns nanos_per_sec (omega arith),
  euclid_parts (ntp_full unix_ns) era_secs (omega arith),
)

-- Every `i64` instant is read back exactly from its timestamp and its era, to the nanosecond.
pub in_era-from_unix_ns :
    (unix_ns : ℤ)
    → IsI64 unix_ns
    → to_unix_ns_in_era (from_unix_ns unix_ns) (era_of_unix_ns unix_ns) ≡ unix_ns
unfolding from_unix_ns to_unix_ns_in_era era_of_unix_ns
in_era-from_unix_ns unix_ns h =
    rw (fraction-nanos (rem_euclid unix_ns nanos_per_sec) (euclid_parts unix_ns _ (omega arith)).1)
      (ap saturate_i64 (exact_instant unix_ns) ∙ saturate_i64-eq unix_ns h)

pub to_bits-lt : (t : NtpTimestamp) → IsTimestamp t → to_bits t < 2 ^ 64
unfolding to_bits
to_bits-lt t h = omega (arith, or_disjoint 32 t.secs t.frac h.1)
