-- ===== src/Pico10baseT/Frame.antt =====
-- pico-10base-t/src/frame.rs: addresses, and one UDP datagram in an IPv4 packet in an Ethernet frame.
pub mod Address
pub mod Layout
pub mod Receiver
use pico_gnss.Base.{
  ℕ, ◌+◌, ◌-◌, ◌*◌, ◌%◌, ◌^◌, ◌<◌, List, [], ◌∷◌, ◌++◌, Option, none, some, Bool, ◌||◌, ltb, ◌==◌,
  if◌then◌else◌, length, drop, replicate, bit_and, All,
}
use pico_gnss.Base.Bytes.{IsByte, Quad, IsQuad, quad, quad_bytes, to_be_bytes, to_le_bytes}
use pico_gnss.Pico10baseT.Crc.{crc32}
use pico_gnss.Pico10baseT.Checksum.{ones_complement_checksum}

abbrev pub ethernet_header_len : ℕ
ethernet_header_len = 14

abbrev pub ipv4_header_len : ℕ
ipv4_header_len = 20

abbrev pub udp_header_len : ℕ
udp_header_len = 8

abbrev pub fcs_len : ℕ
fcs_len = 4

abbrev pub min_ethernet_payload : ℕ
min_ethernet_payload = 46

abbrev pub ethertype_ipv4 : ℕ
ethertype_ipv4 = 0x0800

abbrev pub ip_proto_udp : ℕ
ip_proto_udp = 17

-- `MacAddr([u8; 6])`: two bytes and four.
pub record MacAddr : Type 0 where
  pub a : ℕ
  pub b : ℕ
  pub rest : Quad

abbrev pub mac_bytes : MacAddr → List ℕ
mac_bytes m = m.a ∷ m.b ∷ quad_bytes m.rest

abbrev pub mac_broadcast : MacAddr
mac_broadcast = record { a = 0xff; b = 0xff; rest = quad 0xff 0xff 0xff 0xff }

-- `Ipv4Addr([u8; 4])`.
abbrev pub Ipv4Addr : Type 0
Ipv4Addr = Quad

abbrev pub ip_broadcast : Ipv4Addr
ip_broadcast = quad 255 255 255 255

abbrev pub ntp_multicast : Ipv4Addr
ntp_multicast = quad 224 0 1 1

pub for_ipv4_multicast : Ipv4Addr → MacAddr
for_ipv4_multicast ip = record {
  a = 0x01;
  b = 0x00;
  rest = quad 0x5e (bit_and ip.b 0x7f) ip.c ip.d;
}

pub is_multicast : Ipv4Addr → Bool
is_multicast ip = bit_and ip.a 0xf0 == 0xe0

pub record UdpFrameSpec : Type 0 where
  pub src_mac : MacAddr
  pub dst_mac : MacAddr
  pub src_ip : Ipv4Addr
  pub dst_ip : Ipv4Addr
  pub src_port : ℕ
  pub dst_port : ℕ
  pub ip_id : ℕ
  pub ttl : ℕ
  pub payload : List ℕ

abbrev pub IsMac : MacAddr → Type 0
IsMac m = IsByte m.a × IsByte m.b × IsQuad m.rest

-- The ranges of the field types.
pub record IsSpec (s : UdpFrameSpec) : Type 0 where
  pub src_mac_fits : IsMac s.src_mac
  pub dst_mac_fits : IsMac s.dst_mac
  pub src_ip_fits : IsQuad s.src_ip
  pub dst_ip_fits : IsQuad s.dst_ip
  pub src_port_fits : s.src_port < 2 ^ 16
  pub dst_port_fits : s.dst_port < 2 ^ 16
  pub ip_id_fits : s.ip_id < 2 ^ 16
  pub ttl_fits : IsByte s.ttl
  pub payload_fits : All IsByte s.payload

unfoldable pub frame_len : ℕ → ℕ
frame_len payload_len =
    let ip_total = ipv4_header_len + udp_header_len + payload_len in
    let eth_payload =
      if ltb ip_total min_ethernet_payload then min_ethernet_payload else ip_total in
    ethernet_header_len + eth_payload + fcs_len

abbrev pub udp_len : UdpFrameSpec → ℕ
udp_len spec = udp_header_len + length spec.payload

abbrev pub ip_total : UdpFrameSpec → ℕ
ip_total spec = ipv4_header_len + udp_len spec

-- The regions of `out`, each with its checksum field as an argument. The writes of a region cover
-- it in order, byte by byte.
pub ethernet_header : UdpFrameSpec → List ℕ
ethernet_header spec =
    mac_bytes spec.dst_mac ++ (mac_bytes spec.src_mac ++ to_be_bytes 2 ethertype_ipv4)

pub ip_front : UdpFrameSpec → List ℕ
ip_front spec =
    0x45
    ∷ 0
    ∷ (to_be_bytes 2 (ip_total spec)
        ++ (to_be_bytes 2 spec.ip_id ++ (to_be_bytes 2 0 ++ spec.ttl ∷ ip_proto_udp ∷ [])))

pub ip_header : UdpFrameSpec → ℕ → List ℕ
ip_header spec ck =
    ip_front spec ++ (to_be_bytes 2 ck ++ (quad_bytes spec.src_ip ++ quad_bytes spec.dst_ip))

pub udp_front : UdpFrameSpec → List ℕ
udp_front spec =
    to_be_bytes 2 spec.src_port ++ (to_be_bytes 2 spec.dst_port ++ to_be_bytes 2 (udp_len spec))

pub udp_datagram : UdpFrameSpec → ℕ → List ℕ
udp_datagram spec ck = udp_front spec ++ (to_be_bytes 2 ck ++ spec.payload)

-- The loop over the two addresses, and the protocol and length: at most 4 * 65535 + 17 + 65535.
pub pseudo_header : UdpFrameSpec → ℕ
pseudo_header spec =
    spec.src_ip.a * 256
    + spec.src_ip.b
    + (spec.src_ip.c * 256 + spec.src_ip.d)
    + (spec.dst_ip.a * 256 + spec.dst_ip.b)
    + (spec.dst_ip.c * 256 + spec.dst_ip.d)
    + (ip_proto_udp + udp_len spec)

-- `ip_ck` and `udp_ck`, taken over the region with a zero field.
pub ip_checksum : UdpFrameSpec → ℕ
ip_checksum spec = ones_complement_checksum (ip_header spec 0) 0

pub udp_checksum : UdpFrameSpec → ℕ
udp_checksum spec =
    let ck = ones_complement_checksum (udp_datagram spec 0) (pseudo_header spec) in
    if ck == 0 then 0xffff else ck

-- `out[..total - FCS_LEN]`: what `fill(0)` leaves behind the datagram is the padding.
pub frame_body : UdpFrameSpec → List ℕ
frame_body spec =
    ethernet_header spec
    ++ (ip_header spec (ip_checksum spec)
        ++ (udp_datagram spec (udp_checksum spec)
            ++ replicate
                (frame_len (length spec.payload) - fcs_len - ethernet_header_len - ip_total spec)
                0))

-- The bytes written and the buffer, or `none` where it is too small or the packet too long.
pub build_udp_frame : UdpFrameSpec → List ℕ → Option (ℕ × List ℕ)
build_udp_frame spec out =
    let total = frame_len (length spec.payload) in
    if ltb (length out) total || ltb 65535 (ip_total spec)
    then none
    else some (
      total,
      frame_body spec ++ (to_le_bytes fcs_len (crc32 (frame_body spec)) ++ drop total out),
    )
