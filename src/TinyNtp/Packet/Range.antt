-- ===== src/TinyNtp/Packet/Range.antt =====
-- A header is a sequence of bytes.
use pico_gnss.Base.{ℕ, ◌<◌, arith, List, ◌++◌, All, All-append}
use pico_gnss.Base.Int.{ℤ, pos, negsuc, as_u8}
use pico_gnss.Base.Bytes.{IsByte, Quad, IsQuad, to_be_bytes, to_be_bytes-IsByte, quad_bytes}
use pico_gnss.TinyNtp.Timestamp
use pico_gnss.TinyNtp.Short
use pico_gnss.TinyNtp.Packet.{NtpPacket, IsPacket, encode}
use pico_gnss.TinyNtp.Packet.Fields.{first_byte-IsByte}

as_u8-IsByte : (a : ℤ) → as_u8 a < 256
as_u8-IsByte (pos n) = omega arith
as_u8-IsByte (negsuc n) = omega arith

before : (n w : ℕ) (rest : List ℕ) → All IsByte rest → All IsByte (to_be_bytes n w ++ rest)
before n w rest h = All-append IsByte (to_be_bytes n w) rest (to_be_bytes-IsByte n w) h

quad_before :
    (q : Quad) (rest : List ℕ) → IsQuad q → All IsByte rest → All IsByte (quad_bytes q ++ rest)
quad_before q rest h bytes = All-append IsByte (quad_bytes q) rest (omega (arith, h)) bytes

words-IsByte :
    (p : NtpPacket)
    → IsQuad p.reference_id
    → All IsByte (
        to_be_bytes 4 (Short.to_bits p.root_delay)
        ++ (to_be_bytes 4 (Short.to_bits p.root_dispersion)
            ++ (quad_bytes p.reference_id
                ++ (to_be_bytes 8 (Timestamp.to_bits p.reference_timestamp)
                    ++ (to_be_bytes 8 (Timestamp.to_bits p.origin_timestamp)
                        ++ (to_be_bytes 8 (Timestamp.to_bits p.receive_timestamp)
                            ++ to_be_bytes 8 (Timestamp.to_bits p.transmit_timestamp)))))))
words-IsByte p h = search (before, quad_before, to_be_bytes-IsByte, h) depth 9

pub encode-IsByte : (p : NtpPacket) → IsPacket p → All IsByte (encode p)
unfolding encode
encode-IsByte p h = (
  first_byte-IsByte p.leap p.version p.mode,
  (
    h.stratum_fits,
    (as_u8-IsByte p.poll, (as_u8-IsByte p.precision, words-IsByte p h.reference_id_fits)),
  ),
)
