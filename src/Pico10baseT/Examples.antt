-- ===== src/Pico10baseT/Examples.antt =====
-- Concrete runs of pico-10base-t, and its theorems at concrete inputs.
use pico_gnss.Base.{
  ℕ, ◌≡◌, ◌∙◌, refl, arith, some, List, [], ◌∷◌, ◌++◌, replicate, take, drop, length, length-take,
}
use pico_gnss.Base.Bytes.{quad}
use pico_gnss.Pico10baseT.Crc.{crc32, fold_bit, fold_bits}
use pico_gnss.Pico10baseT.Crc.Bitwise.{crc32_bitwise, crc32-crc32_bitwise}
use pico_gnss.Pico10baseT.Phy.{encoded_words, encode_frame, preamble_sfd}
use pico_gnss.Pico10baseT.Phy.Line.{line, read_line, encode_frame-eq-some}
use pico_gnss.Pico10baseT.Frame.{
  mac_broadcast, ip_broadcast, UdpFrameSpec, IsSpec, frame_len, build_udp_frame,
}
use pico_gnss.Pico10baseT.Frame.Layout.{sent_frame}
use pico_gnss.Pico10baseT.Frame.Receiver.{
  IsReceived, build_udp_frame-eq-some, build_udp_frame-IsReceived,
}
use pico_gnss.Pico10baseT.Transmission.{read_line-encode_frame}

-- The check value of CRC-32 over the digits 1 to 9.
abbrev digits : List ℕ
digits = 0x31 ∷ 0x32 ∷ 0x33 ∷ 0x34 ∷ 0x35 ∷ 0x36 ∷ 0x37 ∷ 0x38 ∷ 0x39 ∷ []

digits_bitwise : crc32_bitwise digits ≡ 0xcbf43926
unfolding fold_bits fold_bit
digits_bitwise = refl

crc32-digits : crc32 digits ≡ 0xcbf43926
crc32-digits = crc32-crc32_bitwise digits (omega arith) ∙ digits_bitwise

crc32-crc32_bitwise_example : crc32 (1 ∷ 2 ∷ 3 ∷ []) ≡ crc32_bitwise (1 ∷ 2 ∷ 3 ∷ [])
crc32-crc32_bitwise_example = crc32-crc32_bitwise (1 ∷ 2 ∷ 3 ∷ []) (omega arith)

abbrev hello : UdpFrameSpec
hello = record {
  src_mac = record { a = 2; b = 0; rest = quad 0 0 0 1 };
  dst_mac = mac_broadcast;
  src_ip = quad 192 168 37 24;
  dst_ip = ip_broadcast;
  src_port = 1234;
  dst_port = 123;
  ip_id = 7;
  ttl = 1;
  payload = 0x68 ∷ 0x69 ∷ 0x21 ∷ [];
}

hello-IsSpec : IsSpec hello
hello-IsSpec = record {
  src_mac_fits = omega arith;
  dst_mac_fits = omega arith;
  src_ip_fits = omega arith;
  dst_ip_fits = omega arith;
  src_port_fits = omega arith;
  dst_port_fits = omega arith;
  ip_id_fits = omega arith;
  ttl_fits = omega arith;
  payload_fits = omega arith;
}

abbrev buffer : List ℕ
buffer = replicate 80 0xaa

abbrev built : List ℕ
built = sent_frame hello ++ drop 64 buffer

hello-built : build_udp_frame hello buffer ≡ some (64, built)
unfolding frame_len
hello-built = build_udp_frame-eq-some hello buffer (omega arith) (omega arith)

build_udp_frame-IsReceived_example : (64 ≡ frame_len 3) × IsReceived hello (take 64 built)
build_udp_frame-IsReceived_example =
    build_udp_frame-IsReceived hello buffer built 64 hello-IsSpec hello-built

abbrev words : List ℕ
words = replicate 80 0

abbrev coded : List ℕ
coded = line (take 64 built) ++ drop (encoded_words (length (take 64 built))) words

hello_encoded :
    encode_frame (take 64 built) words ≡ some (encoded_words (length (take 64 built)), coded)
unfolding encoded_words
hello_encoded = encode_frame-eq-some (take 64 built) words (omega (arith, length-take 64 built))

read_line-encode_frame_example :
    (read_line coded ≡ some (preamble_sfd ++ take 64 built)) × IsReceived hello (take 64 built)
read_line-encode_frame_example =
    read_line-encode_frame hello buffer built words coded 64
      (encoded_words (length (take 64 built))) hello-IsSpec hello-built hello_encoded
