-- ===== src/TinyNtp/Packet/Fields.antt =====
-- The first byte of the header: leap indicator, version and mode.
use pico_gnss.Base.{ℕ, ◌*◌, ◌+◌, ◌/◌, ◌%◌, ◌^◌, ◌<◌, ◌≡◌, arith, bit_and}
use pico_gnss.Base.Bits.{and_mask, or_disjoint}
use pico_gnss.TinyNtp.Packet.{
  LeapIndicator, no_warning, Mode, reserved, leap_bits, mode_bits, leap_from_bits, mode_from_bits,
  first_byte,
}

leap_bits-lt : (l : LeapIndicator) → leap_bits l < 4
unfolding leap_bits
leap_bits-lt no_warning = omega arith
leap_bits-lt _ = omega arith

mode_bits-lt : (m : Mode) → mode_bits m < 8
unfolding mode_bits
mode_bits-lt reserved = omega arith
mode_bits-lt _ = omega arith

pub first_byte-eq :
    (l : LeapIndicator) (v : ℕ) (m : Mode)
    → first_byte l v m ≡ leap_bits l * 64 + v % 8 * 8 + mode_bits m
unfolding first_byte
first_byte-eq l v m = ground (
  arith,
  and_mask 3 v,
  or_disjoint 6 (leap_bits l) (v % 8 * 8),
  or_disjoint 3 (leap_bits l * 8 + v % 8) (mode_bits m) (mode_bits-lt m),
)

pub first_byte-IsByte : (l : LeapIndicator) (v : ℕ) (m : Mode) → first_byte l v m < 256
first_byte-IsByte l v m = omega (arith, first_byte-eq l v m, leap_bits-lt l, mode_bits-lt m)

leap_from_bits-leap_bits : (l : LeapIndicator) (x : ℕ) → x % 4 ≡ leap_bits l → leap_from_bits x ≡ l
unfolding leap_from_bits leap_bits
leap_from_bits-leap_bits no_warning x h = ground (arith, and_mask 2 x)
leap_from_bits-leap_bits _ x h = ground (arith, and_mask 2 x)

mode_from_bits-mode_bits : (m : Mode) (x : ℕ) → x % 8 ≡ mode_bits m → mode_from_bits x ≡ m
unfolding mode_from_bits mode_bits
mode_from_bits-mode_bits reserved x h = ground (arith, and_mask 3 x)
mode_from_bits-mode_bits _ x h = ground (arith, and_mask 3 x)

leap_bits-leap_from_bits : (x : ℕ) → leap_bits (leap_from_bits x) ≡ x % 4
unfolding leap_from_bits leap_bits
leap_bits-leap_from_bits x = ground (arith, and_mask 2 x)

mode_bits-mode_from_bits : (x : ℕ) → mode_bits (mode_from_bits x) ≡ x % 8
unfolding mode_from_bits mode_bits
mode_bits-mode_from_bits x = ground (arith, and_mask 3 x)

module _ (l : LeapIndicator) (v : ℕ) (m : Mode) where
  pub leap-first_byte : leap_from_bits (first_byte l v m / 2 ^ 6) ≡ l
  leap-first_byte =
      leap_from_bits-leap_bits l _
        (omega (arith, first_byte-eq l v m, leap_bits-lt l, mode_bits-lt m))

  pub version-first_byte : bit_and (first_byte l v m / 2 ^ 3) 7 ≡ v % 8
  version-first_byte =
      rw (and_mask 3 (first_byte l v m / 2 ^ 3))
        (omega (arith, first_byte-eq l v m, mode_bits-lt m))

  pub mode-first_byte : mode_from_bits (first_byte l v m) ≡ m
  mode-first_byte =
      mode_from_bits-mode_bits m _ (omega (arith, first_byte-eq l v m, mode_bits-lt m))

-- The byte of the three fields read from a byte is that byte.
pub first_byte-fields :
    (x : ℕ)
    → x < 256
    → first_byte (leap_from_bits (x / 2 ^ 6)) (bit_and (x / 2 ^ 3) 7) (mode_from_bits x) ≡ x
first_byte-fields x h = omega (
  arith,
  first_byte-eq (leap_from_bits (x / 2 ^ 6)) (bit_and (x / 2 ^ 3) 7) (mode_from_bits x),
  and_mask 3 (x / 2 ^ 3),
  leap_bits-leap_from_bits (x / 2 ^ 6),
  mode_bits-mode_from_bits x,
)
