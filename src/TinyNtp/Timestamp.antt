-- ===== src/TinyNtp/Timestamp.antt =====
-- tiny-ntp/src/timestamp.rs: the 32.32 and 16.16 formats and their conversions from nanoseconds.
-- An `i64` is in ℤ, and the sums stay in range for every `i64` argument, as do those on `u64` for
-- fields of 32 bits (`frac * 1e9 < 2 ^ 62`); `to_unix_ns_in_era` works in `i128` and saturates.
pub mod RoundTrip
pub mod Era
use pico_gnss.Base.{ℕ, zero, suc, ◌+◌, ◌-◌, ◌*◌, ◌/◌, ◌%◌, ◌^◌, ◌<◌, true, false, ltb, bit_or}
use pico_gnss.Base.Int.{
  ℤ, pos, ◌+ℤ◌, ◌-ℤ◌, ◌*ℤ◌, div_euclid, rem_euclid, abs_ℕ, leb_ℤ, saturate_i64,
}

abbrev pub ntp_unix_offset_secs : ℕ
ntp_unix_offset_secs = 2_208_988_800

abbrev pub nanos_per_sec : ℕ
nanos_per_sec = 1_000_000_000

-- `1 << 32`.
abbrev pub era_secs : ℕ
era_secs = 2 ^ 32

-- `NtpTimestamp`: two `u32` fields.
pub record NtpTimestamp : Type 0 where
  pub secs : ℕ
  pub frac : ℕ

-- The range of the two fields, which their type `u32` gives.
abbrev pub IsTimestamp : NtpTimestamp → Type 0
IsTimestamp t = (t.secs < 2 ^ 32) × (t.frac < 2 ^ 32)

-- `NtpTimestamp::ZERO`: "unspecified".
abbrev pub zero_timestamp : NtpTimestamp
zero_timestamp = record { secs = 0; frac = 0 }

pub from_bits : ℕ → NtpTimestamp
from_bits bits = record { secs = bits / 2 ^ 32 % 2 ^ 32; frac = bits % 2 ^ 32 }

pub to_bits : NtpTimestamp → ℕ
to_bits t = bit_or (t.secs * 2 ^ 32) t.frac

-- Seconds since 1900, in all eras together.
abbrev pub ntp_full : ℤ → ℤ
ntp_full unix_ns = div_euclid unix_ns nanos_per_sec +ℤ pos ntp_unix_offset_secs

pub era_of_unix_ns : ℤ → ℤ
era_of_unix_ns unix_ns = div_euclid (ntp_full unix_ns) era_secs

unfoldable pub from_unix_ns : ℤ → NtpTimestamp
from_unix_ns unix_ns =
    let nanos = rem_euclid unix_ns nanos_per_sec in
    let frac = (nanos * 2 ^ 32 + nanos_per_sec / 2) / nanos_per_sec in
    record { secs = rem_euclid (ntp_full unix_ns) era_secs; frac = frac % 2 ^ 32 }

pub to_unix_ns_in_era : NtpTimestamp → ℤ → ℤ
to_unix_ns_in_era t era =
    let full = era *ℤ era_secs +ℤ pos t.secs in
    let unix_secs = full -ℤ pos ntp_unix_offset_secs in
    let nanos = (t.frac * nanos_per_sec + 2 ^ 31) / 2 ^ 32 in
    saturate_i64 (unix_secs *ℤ nanos_per_sec +ℤ pos nanos)

-- The distance, in seconds, of these seconds read in `era` from the reference.
abbrev pub era_distance : ℕ → ℤ → ℤ → ℕ
era_distance secs ref_full era = abs_ℕ (era *ℤ era_secs +ℤ pos secs -ℤ ref_full)

-- `while era <= ref_era + 1 { … }` over (`era`, `best_era`, `best_diff`).
near_loop : ℕ → ℕ → ℤ → ℤ → ℤ → ℤ → ℕ → ℤ
near_loop zero secs ref_full last era best_era best_diff = best_era
near_loop (suc fuel) secs ref_full last era best_era best_diff =
    let diff = era_distance secs ref_full era in
    let next = era +ℤ pos 1 in
    elim (leb_ℤ era last) [
      | true ↦ elim (ltb diff best_diff) [
        | true ↦ near_loop fuel secs ref_full last next era diff
        | false ↦ near_loop fuel secs ref_full last next best_era best_diff
      ]
      | false ↦ best_era
    ]

-- The loop makes three rounds and ends by its test in the fourth.
pub nearest_era : ℕ → ℤ → ℤ
nearest_era secs ref_full =
    let ref_era = div_euclid ref_full era_secs in
    near_loop 4 secs ref_full (ref_era +ℤ pos 1) (ref_era -ℤ pos 1) ref_era (2 ^ 63 - 1)

pub to_unix_ns_near : NtpTimestamp → ℤ → ℤ
to_unix_ns_near t reference_unix_ns =
    to_unix_ns_in_era t (nearest_era t.secs (ntp_full reference_unix_ns))
