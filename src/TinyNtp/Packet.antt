-- ===== src/TinyNtp/Packet.antt =====
-- tiny-ntp/src/packet.rs: the 48-byte header and its wire encoding.
pub mod Fields
pub mod RoundTrip
pub mod Range
use pico_gnss.Base.{
  ℕ, ◌*◌, ◌+◌, ◌/◌, ◌%◌, ◌^◌, ◌<◌, ◌≤◌, List, [], ◌∷◌, ◌++◌, Option, none, some, ltb, ◌==◌,
  if◌then◌else◌, bit_and, bit_or, length, get_or, slice,
}
use pico_gnss.Base.Int.{ℤ, IsI8, as_u8, as_i8}
use pico_gnss.Base.Bytes.{IsByte, Quad, IsQuad, quad_bytes, to_quad, to_be_bytes, from_be_bytes}
use pico_gnss.TinyNtp.Timestamp
use pico_gnss.TinyNtp.Timestamp.{NtpTimestamp, IsTimestamp}
use pico_gnss.TinyNtp.Short
use pico_gnss.TinyNtp.Short.{NtpShort, IsShort}

abbrev pub packet_len : ℕ
packet_len = 48

pub data LeapIndicator : Type 0 where
  no_warning last_minute61 last_minute59 unsynchronized : LeapIndicator

pub data Mode : Type 0 where
  reserved symmetric_active symmetric_passive client server broadcast control_message private : Mode

-- The discriminants, `self.leap as u8` and `self.mode as u8`.
pub leap_bits : LeapIndicator → ℕ
leap_bits no_warning = 0
leap_bits last_minute61 = 1
leap_bits last_minute59 = 2
leap_bits unsynchronized = 3

pub mode_bits : Mode → ℕ
mode_bits reserved = 0
mode_bits symmetric_active = 1
mode_bits symmetric_passive = 2
mode_bits client = 3
mode_bits server = 4
mode_bits broadcast = 5
mode_bits control_message = 6
mode_bits private = 7

pub leap_from_bits : ℕ → LeapIndicator
leap_from_bits bits =
    let b = bit_and bits 3 in
    if b == 0
    then no_warning
    else if b == 1
    then last_minute61
    else if b == 2
    then last_minute59
    else unsynchronized

pub mode_from_bits : ℕ → Mode
mode_from_bits bits =
    let b = bit_and bits 7 in
    if b == 0
    then reserved
    else if b == 1
    then symmetric_active
    else if b == 2
    then symmetric_passive
    else if b == 3
    then client
    else if b == 4
    then server
    else if b == 5
    then broadcast
    else if b == 6
    then control_message
    else private

pub record NtpPacket : Type 0 where
  pub leap : LeapIndicator
  pub version : ℕ
  pub mode : Mode
  pub stratum : ℕ
  pub poll : ℤ
  pub precision : ℤ
  pub root_delay : NtpShort
  pub root_dispersion : NtpShort
  pub reference_id : Quad
  pub reference_timestamp : NtpTimestamp
  pub origin_timestamp : NtpTimestamp
  pub receive_timestamp : NtpTimestamp
  pub transmit_timestamp : NtpTimestamp

-- The ranges of the field types, and three bits of version: what the wire can carry.
pub record IsPacket (p : NtpPacket) : Type 0 where
  pub version_fits : p.version < 8
  pub stratum_fits : IsByte p.stratum
  pub poll_fits : IsI8 p.poll
  pub precision_fits : IsI8 p.precision
  pub root_delay_fits : IsShort p.root_delay
  pub root_dispersion_fits : IsShort p.root_dispersion
  pub reference_id_fits : IsQuad p.reference_id
  pub reference_fits : IsTimestamp p.reference_timestamp
  pub origin_fits : IsTimestamp p.origin_timestamp
  pub receive_fits : IsTimestamp p.receive_timestamp
  pub transmit_fits : IsTimestamp p.transmit_timestamp

pub short_at : List ℕ → ℕ → NtpShort
short_at buf at = Short.from_bits (from_be_bytes (slice buf at 4))

pub timestamp_at : List ℕ → ℕ → NtpTimestamp
timestamp_at buf at = Timestamp.from_bits (from_be_bytes (slice buf at 8))

-- `b[0]`.
pub first_byte : LeapIndicator → ℕ → Mode → ℕ
first_byte leap version mode =
    bit_or (bit_or (leap_bits leap * 2 ^ 6) (bit_and version 7 * 2 ^ 3)) (mode_bits mode)

-- The writes cover `b[0]` to `b[47]` in order, each byte once, so the array is their sequence.
pub encode : NtpPacket → List ℕ
encode p =
    first_byte p.leap p.version p.mode
    ∷ p.stratum
    ∷ as_u8 p.poll
    ∷ as_u8 p.precision
    ∷ (to_be_bytes 4 (Short.to_bits p.root_delay)
        ++ (to_be_bytes 4 (Short.to_bits p.root_dispersion)
            ++ (quad_bytes p.reference_id
                ++ (to_be_bytes 8 (Timestamp.to_bits p.reference_timestamp)
                    ++ (to_be_bytes 8 (Timestamp.to_bits p.origin_timestamp)
                        ++ (to_be_bytes 8 (Timestamp.to_bits p.receive_timestamp)
                            ++ to_be_bytes 8 (Timestamp.to_bits p.transmit_timestamp)))))))

-- The `Self { … }` of `decode`. Its reads are in range for a buffer of 48 bytes, so the default of
-- `get_or` is never taken.
pub read_fields : List ℕ → NtpPacket
read_fields buf = record {
  leap = leap_from_bits (get_or buf 0 0 / 2 ^ 6);
  version = bit_and (get_or buf 0 0 / 2 ^ 3) 7;
  mode = mode_from_bits (get_or buf 0 0);
  stratum = get_or buf 1 0;
  poll = as_i8 (get_or buf 2 0);
  precision = as_i8 (get_or buf 3 0);
  root_delay = short_at buf 4;
  root_dispersion = short_at buf 8;
  reference_id = to_quad (slice buf 12 4);
  reference_timestamp = timestamp_at buf 16;
  origin_timestamp = timestamp_at buf 24;
  receive_timestamp = timestamp_at buf 32;
  transmit_timestamp = timestamp_at buf 40;
}

unfoldable pub decode : List ℕ → Option NtpPacket
decode buf = if ltb (length buf) packet_len then none else some (read_fields buf)
