-- ===== src/Pico10baseT/Frame/Receiver.antt =====
-- What a receiver checks and reads in a built frame.
use pico_gnss.Base.{
  ℕ, ◌+◌, ◌*◌, ◌^◌, ◌<◌, ◌≤◌, ◌≡◌, ◌↔◌, ◌⊎◌, refl, sym, ◌∙◌, arith, List, ◌++◌, Option, none, some,
  length, slice, take, drop, take-append_self,
}
use mathlib.Core.List.{append_assoc}
use pico_gnss.Base.Bytes.{quad_bytes, to_le_bytes}
use pico_gnss.Pico10baseT.Crc.{crc32}
use pico_gnss.Pico10baseT.Crc.Residue.{crc32_residue}
use pico_gnss.Pico10baseT.Checksum.{ones_complement_checksum}
use pico_gnss.Pico10baseT.Checksum.Verify.{
  word_total, word_total_bound, checksum_verifies, checksum_verifies_nonzero,
}
use pico_gnss.Pico10baseT.Frame.{
  UdpFrameSpec, IsSpec, fcs_len, frame_len, udp_len, ip_total, ip_front, ip_header, udp_front,
  udp_datagram, pseudo_header, ip_checksum, udp_checksum, frame_body, build_udp_frame,
}
use pico_gnss.Pico10baseT.Frame.Layout.{
  sent_frame, length-sent_frame, ip_header_at, payload_at, udp_datagram_at, frame_body-IsByte,
  ip_header-IsByte, udp_datagram-IsByte,
}

-- `build_udp_frame` refuses exactly when the buffer is shorter than `frame_len` of the payload or
-- the packet is longer than 65535 bytes.
pub build_udp_frame-eq-none :
    (spec : UdpFrameSpec) (out : List ℕ)
    → (build_udp_frame spec out ≡ none)
      ↔ ((length out < frame_len (length spec.payload)) ⊎ (65535 < ip_total spec))
unfolding build_udp_frame
build_udp_frame-eq-none spec out = (λ h. ground arith, λ h. ground arith)

-- Otherwise the front of the buffer is the frame, and the rest is as it was.
pub build_udp_frame-eq-some :
    (spec : UdpFrameSpec) (out : List ℕ)
    → frame_len (length spec.payload) ≤ length out
    → ip_total spec ≤ 65535
    → build_udp_frame spec out
      ≡ some (
        frame_len (length spec.payload),
        sent_frame spec ++ drop (frame_len (length spec.payload)) out,
      )
unfolding build_udp_frame
build_udp_frame-eq-some spec out h k = ground (arith, whole)
  where
    whole :
        frame_body spec
          ++ (to_le_bytes fcs_len (crc32 (frame_body spec))
              ++ drop (frame_len (length spec.payload)) out)
        ≡ sent_frame spec ++ drop (frame_len (length spec.payload)) out
    whole =
        unfold sent_frame in
        sym (
          append_assoc (frame_body spec) (to_le_bytes 4 (crc32 (frame_body spec)))
            (drop (frame_len (length spec.payload)) out))

module _ (spec : UdpFrameSpec) (fits : IsSpec spec) where
  -- The check sequence: a receiver's CRC over the whole frame comes to the constant of 802.3.
  pub frame_check : crc32 (sent_frame spec) ≡ 0x2144df1c
  unfolding sent_frame
  frame_check = crc32_residue (frame_body spec) (frame_body-IsByte spec fits)

  ip_total_fits : 0 + word_total (ip_header spec 0) + 65535 < 2 ^ 32
  ip_total_fits =
      omega (
        arith,
        word_total_bound (ip_header spec 0) (ip_header-IsByte spec fits 0),
        length-ip_header,
      )
    where
      length-ip_header : length (ip_header spec 0) ≡ 20
      length-ip_header = unfold ip_header ip_front in refl

  ip_header_verifies : ones_complement_checksum (ip_header spec (ip_checksum spec)) 0 ≡ 0
  unfolding ip_checksum ip_header ip_front
  ip_header_verifies =
      checksum_verifies 5 (ip_front spec) (quad_bytes spec.src_ip ++ quad_bytes spec.dst_ip) 0
        (omega arith) ip_total_fits

  -- The IPv4 header sums to zero.
  pub ip_header_check : ones_complement_checksum (slice (sent_frame spec) 14 20) 0 ≡ 0
  ip_header_check = rw (ip_header_at spec) ip_header_verifies

  module _ (short : ip_total spec ≤ 65535) where
    udp_total_fits : pseudo_header spec + word_total (udp_datagram spec 0) + 65535 < 2 ^ 32
    udp_total_fits = omega (
      arith,
      word_total_bound (udp_datagram spec 0) (udp_datagram-IsByte spec fits 0),
      length-udp_datagram,
      pseudo_bound,
    )
      where
        length-udp_datagram : length (udp_datagram spec 0) ≡ udp_len spec
        length-udp_datagram = unfold udp_datagram udp_front in omega arith

        pseudo_bound : pseudo_header spec ≤ 5 * 65535 + 17
        pseudo_bound = unfold pseudo_header in omega (arith, fits.src_ip_fits, fits.dst_ip_fits)

    udp_verifies :
        ones_complement_checksum (udp_datagram spec (udp_checksum spec)) (pseudo_header spec) ≡ 0
    unfolding udp_checksum udp_datagram udp_front
    udp_verifies =
        checksum_verifies_nonzero 3 (udp_front spec) spec.payload (pseudo_header spec) (omega arith)
          udp_total_fits

    -- The datagram sums to zero with its pseudo header, and its field is never the zero that
    -- would say that there is no checksum.
    pub udp_check :
        (ones_complement_checksum (slice (sent_frame spec) 34 (udp_len spec)) (pseudo_header spec)
          ≡ 0)
        × (1 ≤ udp_checksum spec)
    udp_check = (rw (udp_datagram_at spec) udp_verifies, unfold udp_checksum in ground arith)

-- A built frame passes the receiver's three checks and carries the payload, at the front of the
-- buffer.
pub record IsReceived (spec : UdpFrameSpec) (frame : List ℕ) : Type 0 where
  pub long : 64 ≤ length frame
  pub check_sequence : crc32 frame ≡ 0x2144df1c
  pub ip_sum : ones_complement_checksum (slice frame 14 20) 0 ≡ 0
  pub udp_sum : ones_complement_checksum (slice frame 34 (udp_len spec)) (pseudo_header spec) ≡ 0
  pub payload_is : slice frame 42 (length spec.payload) ≡ spec.payload

pub sent_frame-IsReceived :
    (spec : UdpFrameSpec) → IsSpec spec → ip_total spec ≤ 65535 → IsReceived spec (sent_frame spec)
sent_frame-IsReceived spec fits short = record {
  long = (length-sent_frame spec).1;
  check_sequence = frame_check spec fits;
  ip_sum = ip_header_check spec fits;
  udp_sum = (udp_check spec fits short).0;
  payload_is = payload_at spec;
}

-- A success tells that the frame fits, and what the buffer then holds.
build_udp_frame-eq-some_inv :
    (spec : UdpFrameSpec) (out written : List ℕ) (n : ℕ)
    → build_udp_frame spec out ≡ some (n, written)
    → (frame_len (length spec.payload) ≤ length out)
      × (ip_total spec ≤ 65535)
      × (n ≡ frame_len (length spec.payload))
      × (written ≡ sent_frame spec ++ drop (frame_len (length spec.payload)) out)
build_udp_frame-eq-some_inv spec out written n e =
    (long, short, ground (arith, same), ground (arith, same))
  where
    long : frame_len (length spec.payload) ≤ length out
    long = unfold build_udp_frame in ground (arith, e)

    short : ip_total spec ≤ 65535
    short = unfold build_udp_frame in ground (arith, e)

    same : ◌≡◌ {A = Option (ℕ × List ℕ)} (some (n, written)) (
        some (
          frame_len (length spec.payload),
          sent_frame spec ++ drop (frame_len (length spec.payload)) out,
        ))
    same = sym e ∙ build_udp_frame-eq-some spec out long short

pub built_frame :
    (spec : UdpFrameSpec) (out written : List ℕ) (n : ℕ)
    → build_udp_frame spec out ≡ some (n, written)
    → take n written ≡ sent_frame spec
built_frame spec out written n e =
    let (long, short, same_n, same_written) = build_udp_frame-eq-some_inv spec out written n e in
    rw (same_n, same_written, sym (length-sent_frame spec).0) (take-append_self (sent_frame spec) _)

-- For field values in the ranges of their types, a success of `build_udp_frame` returns
-- `frame_len` of the payload, and the front of the buffer is a frame of at least 64 bytes whose
-- CRC comes to the 802.3 constant, whose IPv4 header and UDP datagram sum to zero, and whose
-- payload field is the payload.
pub build_udp_frame-IsReceived :
    (spec : UdpFrameSpec) (out written : List ℕ) (n : ℕ)
    → IsSpec spec
    → build_udp_frame spec out ≡ some (n, written)
    → (n ≡ frame_len (length spec.payload)) × IsReceived spec (take n written)
build_udp_frame-IsReceived spec out written n fits e =
    let (long, short, same_n, same_written) = build_udp_frame-eq-some_inv spec out written n e in
    (same_n, rw (built_frame spec out written n e) (sent_frame-IsReceived spec fits short))
