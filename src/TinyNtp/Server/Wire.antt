-- ===== src/TinyNtp/Server/Wire.antt =====
-- What the server sends, on the wire: `to_bytes` of a served packet and `from_bytes` of it.
use pico_gnss.Base.{ℕ, ◌≡◌, some, List, ◌++◌}
use pico_gnss.Base.Int.{ℤ}
use pico_gnss.TinyNtp.Timestamp.RoundTrip.{from_unix_ns-IsTimestamp}
use pico_gnss.TinyNtp.Packet.{NtpPacket, IsPacket, encode, decode}
use pico_gnss.TinyNtp.Packet.RoundTrip.{decode-encode}
use pico_gnss.TinyNtp.Server.{ServerConfig, ClockState, serve, broadcast, respond}
use pico_gnss.TinyNtp.Server.Answers.{
  IsConfig, base_packet-IsPacket, broadcast-eq-serve, respond-eq-serve,
}

module _ (cfg : ServerConfig) (state : ClockState) (p : NtpPacket) (fits : IsConfig cfg) where
  pub broadcast-IsPacket : (t : ℤ) → broadcast cfg state t ≡ serve p → IsPacket p
  broadcast-IsPacket transmit e =
      let (t, d, q) = (broadcast-eq-serve cfg state transmit p).0 e in
      let base = base_packet-IsPacket cfg state t fits in
      rw q (record {
        version_fits = base.version_fits;
        stratum_fits = base.stratum_fits;
        poll_fits = base.poll_fits;
        precision_fits = base.precision_fits;
        root_delay_fits = base.root_delay_fits;
        root_dispersion_fits = base.root_dispersion_fits;
        reference_id_fits = base.reference_id_fits;
        reference_fits = base.reference_fits;
        origin_fits = base.origin_fits;
        receive_fits = base.receive_fits;
        transmit_fits = from_unix_ns-IsTimestamp transmit;
      })

  -- A client that decodes the bytes of a broadcast gets the packet that the server made.
  pub decode-broadcast :
      (transmit : ℤ) (rest : List ℕ)
      → broadcast cfg state transmit ≡ serve p
      → decode (encode p ++ rest) ≡ some p
  decode-broadcast transmit rest e = decode-encode p rest (broadcast-IsPacket transmit e)

  reply-IsPacket :
      (request : NtpPacket) (receive transmit : ℤ)
      → IsPacket request
      → respond cfg state request receive transmit ≡ serve p
      → IsPacket p
  reply-IsPacket request receive transmit asked e =
      let (_, (t, d, q)) = (respond-eq-serve cfg state request receive transmit p).0 e in
      let base = base_packet-IsPacket cfg state t fits in
      rw q (record {
        version_fits = asked.version_fits;
        stratum_fits = base.stratum_fits;
        poll_fits = asked.poll_fits;
        precision_fits = base.precision_fits;
        root_delay_fits = base.root_delay_fits;
        root_dispersion_fits = base.root_dispersion_fits;
        reference_id_fits = base.reference_id_fits;
        reference_fits = base.reference_fits;
        origin_fits = asked.transmit_fits;
        receive_fits = from_unix_ns-IsTimestamp receive;
        transmit_fits = from_unix_ns-IsTimestamp transmit;
      })

  -- For a configuration and a request in the ranges of their field types, the bytes of a packet
  -- that `respond` serves decode to that packet.
  pub decode-respond :
      (request : NtpPacket) (receive transmit : ℤ) (rest : List ℕ)
      → IsPacket request
      → respond cfg state request receive transmit ≡ serve p
      → decode (encode p ++ rest) ≡ some p
  decode-respond request receive transmit rest asked e =
      decode-encode p rest (reply-IsPacket request receive transmit asked e)
