-- ===== src/Pico10baseT/Frame/Layout.antt =====
-- Where the parts of a built frame lie, and that each part is made of bytes.
use pico_gnss.Base.{
  ℕ, zero, suc, ◌+◌, ◌-◌, ◌≤◌, ◌≡◌, refl, ap, ◌∙◌, arith, List, ◌++◌, length, length-append,
  length-replicate, take, slice, take-append_self, replicate, All, All-append,
}
use pico_gnss.Base.Bytes.{IsByte, to_be_bytes, to_le_bytes, to_le_bytes-IsByte}
use mathlib.Core.List.{append_assoc}
use pico_gnss.Pico10baseT.Crc.{crc32}
use pico_gnss.Pico10baseT.Frame.{
  UdpFrameSpec, IsSpec, ethernet_header_len, fcs_len, frame_len, udp_len, ip_total, ethernet_header,
  ip_front, ip_header, udp_front, udp_datagram, ip_checksum, udp_checksum, frame_body,
}

-- The frame that is sent: the body and its check sequence, lowest byte first.
unfoldable pub sent_frame : UdpFrameSpec → List ℕ
sent_frame spec = frame_body spec ++ to_le_bytes fcs_len (crc32 (frame_body spec))

abbrev pub pad_len : UdpFrameSpec → ℕ
pad_len spec = frame_len (length spec.payload) - fcs_len - ethernet_header_len - ip_total spec

module _ (spec : UdpFrameSpec) where
  room : 18 + ip_total spec ≤ frame_len (length spec.payload)
  unfolding frame_len
  room = ground arith

  length-frame_body : length (frame_body spec) ≡ frame_len (length spec.payload) - 4
  unfolding frame_body ethernet_header ip_header ip_front udp_datagram udp_front
  length-frame_body = ground (
    arith,
    length-append spec.payload (replicate (pad_len spec) 0),
    length-replicate {A = ℕ} (pad_len spec) 0,
    room,
  )

  -- The frame has the length that was announced, and reaches the Ethernet minimum of 64 bytes.
  pub length-sent_frame :
      (length (sent_frame spec) ≡ frame_len (length spec.payload)) × (64 ≤ length (sent_frame spec))
  unfolding sent_frame
  length-sent_frame =
      let total : length (sent_frame spec) ≡ frame_len (length spec.payload) = omega (
        arith,
        length-append (frame_body spec) (to_le_bytes 4 (crc32 (frame_body spec))),
        length-frame_body,
        room,
      ) in
      (total, rw total (unfold frame_len in ground arith))

  pub ip_header_at : slice (sent_frame spec) 14 20 ≡ ip_header spec (ip_checksum spec)
  unfolding sent_frame frame_body ethernet_header ip_header ip_front
  ip_header_at = refl

  payload_first :
      take
        (length spec.payload)
        (((spec.payload ++ replicate (pad_len spec) 0)) ++ to_le_bytes 4 (crc32 (frame_body spec)))
      ≡ spec.payload
  payload_first =
      ap (take (length spec.payload)) (
        append_assoc spec.payload (replicate (pad_len spec) 0)
          (to_le_bytes 4 (crc32 (frame_body spec))))
      ∙ take-append_self spec.payload
          (replicate (pad_len spec) 0 ++ to_le_bytes 4 (crc32 (frame_body spec)))

  pub payload_at : slice (sent_frame spec) 42 (length spec.payload) ≡ spec.payload
  unfolding sent_frame frame_body ethernet_header ip_header ip_front udp_datagram udp_front
  payload_at = payload_first

  pub udp_datagram_at :
      slice (sent_frame spec) 34 (udp_len spec) ≡ udp_datagram spec (udp_checksum spec)
  unfolding sent_frame frame_body ethernet_header ip_header ip_front udp_datagram udp_front
  udp_datagram_at =
      ap (λ (k : ℕ). slice (sent_frame spec) 34 k)
        {y = length (udp_datagram spec (udp_checksum spec))} (omega arith)
      ∙ ap (λ l. udp_front spec ++ (to_be_bytes 2 (udp_checksum spec) ++ l)) payload_first

  module _ (fits : IsSpec spec) where
    ethernet_header-IsByte : All IsByte (ethernet_header spec)
    unfolding ethernet_header
    ethernet_header-IsByte = omega (arith, fits.src_mac_fits, fits.dst_mac_fits)

    pub ip_header-IsByte : (ck : ℕ) → All IsByte (ip_header spec ck)
    unfolding ip_header ip_front
    ip_header-IsByte ck = omega (arith, fits.src_ip_fits, fits.dst_ip_fits, fits.ttl_fits)

    pub udp_datagram-IsByte : (ck : ℕ) → All IsByte (udp_datagram spec ck)
    unfolding udp_datagram udp_front
    udp_datagram-IsByte ck =
        All-append IsByte (udp_front spec ++ to_be_bytes 2 ck) spec.payload (omega arith)
          fits.payload_fits

    zeros-IsByte : (n : ℕ) → All IsByte (replicate n 0)
    zeros-IsByte zero = tt
    zeros-IsByte (suc n) = (omega arith, zeros-IsByte n)

    pub frame_body-IsByte : All IsByte (frame_body spec)
    unfolding frame_body
    frame_body-IsByte = All-append IsByte (ethernet_header spec) _ ethernet_header-IsByte (
        All-append IsByte (ip_header spec (ip_checksum spec)) _ (ip_header-IsByte _) (
          All-append IsByte (udp_datagram spec (udp_checksum spec)) _ (udp_datagram-IsByte _)
            (zeros-IsByte _)))

    pub sent_frame-IsByte : All IsByte (sent_frame spec)
    unfolding sent_frame
    sent_frame-IsByte =
        All-append IsByte (frame_body spec) (to_le_bytes 4 (crc32 (frame_body spec)))
          frame_body-IsByte (to_le_bytes-IsByte 4 (crc32 (frame_body spec)))
