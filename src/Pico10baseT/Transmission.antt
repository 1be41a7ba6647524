-- ===== src/Pico10baseT/Transmission.antt =====
-- From a datagram to the line and back: `build_udp_frame`, then `encode_frame`, then a receiver.
use pico_gnss.Base.{ℕ, ◌≡◌, sym, ap, ◌∙◌, arith, List, ◌++◌, some, length, take, drop}
use pico_gnss.Pico10baseT.Phy.{preamble_sfd, encoded_words, encode_frame}
use pico_gnss.Pico10baseT.Phy.Line.{line, read_line, read_line-line, encode_frame-eq}
use pico_gnss.Pico10baseT.Frame.{UdpFrameSpec, IsSpec, build_udp_frame}
use pico_gnss.Pico10baseT.Frame.Layout.{sent_frame-IsByte}
use pico_gnss.Pico10baseT.Frame.Receiver.{IsReceived, build_udp_frame-IsReceived, built_frame}

encode_frame-eq-some_inv :
    (frame words coded : List ℕ) (k : ℕ)
    → encode_frame frame words ≡ some (k, coded)
    → (rest : List ℕ) × (coded ≡ line frame ++ rest)
encode_frame-eq-some_inv frame words coded k e =
    (drop (encoded_words (length frame)) words, ground (arith, sym e ∙ encode_frame-eq frame words))

-- For field values in the ranges of their types, what `build_udp_frame` builds and `encode_frame`
-- then puts on the line is read back by a receiver of the symbols as the preamble, the start
-- delimiter and the frame, and the frame passes the receiver's checks and carries the payload.
pub read_line-encode_frame :
    (spec : UdpFrameSpec) (out written words coded : List ℕ) (n k : ℕ)
    → IsSpec spec
    → build_udp_frame spec out ≡ some (n, written)
    → encode_frame (take n written) words ≡ some (k, coded)
    → (read_line coded ≡ some (preamble_sfd ++ take n written)) × IsReceived spec (take n written)
read_line-encode_frame spec out written words coded n k fits built encoded =
    let (rest, e) = encode_frame-eq-some_inv (take n written) words coded k encoded in
    (
      ap read_line e
          ∙ read_line-line (take n written) rest
              (rw (built_frame spec out written n built) (sent_frame-IsByte spec fits)),
      (build_udp_frame-IsReceived spec out written n fits built).1,
    )
