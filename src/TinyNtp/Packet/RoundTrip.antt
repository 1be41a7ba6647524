-- ===== src/TinyNtp/Packet/RoundTrip.antt =====
-- `decode` after `encode`, and `encode` after `decode`.
use pico_gnss.Base.{
  ℕ, ◌+◌, ◌%◌, ◌<◌, ◌≤◌, ◌≡◌, ◌↔◌, refl, ap, ◌∙◌, arith, List, [], ◌∷◌, ◌++◌, none, some, length,
  take, All, get_or, slice, slice_split, take_split, subst, zero, suc, length-slice, sym,
  length-append,
}
use pico_gnss.Base.Int.{as_i8-as_u8, as_u8-as_i8}
use pico_gnss.Base.Bytes.{
  IsByte, to_be_bytes, from_be_bytes, from_be_bytes_32, from_be_bytes_64, from_be_bytes-lt,
  to_be_bytes_width, slice-IsByte, quad_bytes, to_quad,
}
use pico_gnss.TinyNtp.Timestamp
use pico_gnss.TinyNtp.Timestamp.{NtpTimestamp, IsTimestamp}
use pico_gnss.TinyNtp.Timestamp.RoundTrip.{from_bits-to_bits, to_bits-lt, to_bits-from_bits}
use pico_gnss.TinyNtp.Short
use pico_gnss.TinyNtp.Short.{NtpShort, IsShort}
use pico_gnss.TinyNtp.Packet.{
  NtpPacket, IsPacket, packet_len, encode, decode, short_at, timestamp_at, read_fields,
}
use pico_gnss.TinyNtp.Packet.Fields.{
  leap-first_byte, version-first_byte, mode-first_byte, first_byte-fields,
}

pub length-encode : (p : NtpPacket) → length (encode p) ≡ packet_len
unfolding encode
length-encode p = refl

short_word :
    (s : NtpShort)
    → IsShort s
    → Short.from_bits (from_be_bytes (to_be_bytes 4 (Short.to_bits s))) ≡ s
unfolding Short.from_bits Short.to_bits
short_word s h = rw (from_be_bytes_32 s.bits h)

timestamp_word :
    (t : NtpTimestamp)
    → IsTimestamp t
    → Timestamp.from_bits (from_be_bytes (to_be_bytes 8 (Timestamp.to_bits t))) ≡ t
timestamp_word t h =
    rw (from_be_bytes_64 (Timestamp.to_bits t) (to_bits-lt t h)) (from_bits-to_bits t h)

read_fields-encode :
    (p : NtpPacket) (rest : List ℕ) → IsPacket p → read_fields (encode p ++ rest) ≡ p
unfolding read_fields encode short_at timestamp_at
read_fields-encode p rest v = λ i. record {
  leap = leap-first_byte p.leap p.version p.mode i;
  version = (version-first_byte p.leap p.version p.mode ∙ fits) i;
  mode = mode-first_byte p.leap p.version p.mode i;
  stratum = p.stratum;
  poll = as_i8-as_u8 p.poll v.poll_fits i;
  precision = as_i8-as_u8 p.precision v.precision_fits i;
  root_delay = short_word p.root_delay v.root_delay_fits i;
  root_dispersion = short_word p.root_dispersion v.root_dispersion_fits i;
  reference_id = p.reference_id;
  reference_timestamp = timestamp_word p.reference_timestamp v.reference_fits i;
  origin_timestamp = timestamp_word p.origin_timestamp v.origin_fits i;
  receive_timestamp = timestamp_word p.receive_timestamp v.receive_fits i;
  transmit_timestamp = timestamp_word p.transmit_timestamp v.transmit_fits i;
}
  where
    fits : p.version % 8 ≡ p.version
    fits = omega (arith, v.version_fits)

decode-eq : (buf : List ℕ) → packet_len ≤ length buf → decode buf ≡ some (read_fields buf)
unfolding decode
decode-eq buf h = ground arith

-- A buffer is refused exactly when it is shorter than a header.
pub decode-eq-none : (buf : List ℕ) → (decode buf ≡ none) ↔ (length buf < packet_len)
unfolding decode
decode-eq-none buf = ground arith

-- A packet whose fields are in the ranges of their types, with a version below 8, is decoded from
-- its 48 encoded bytes, whatever bytes follow them.
pub decode-encode :
    (p : NtpPacket) (rest : List ℕ) → IsPacket p → decode (encode p ++ rest) ≡ some p
decode-encode p rest v =
    decode-eq (encode p ++ rest) (omega (arith, length-append (encode p) rest, length-encode p))
    ∙ ap some (read_fields-encode p rest v)

short_bytes :
    (bs : List ℕ)
    → length bs ≡ 4
    → All IsByte bs
    → to_be_bytes 4 (Short.to_bits (Short.from_bits (from_be_bytes bs))) ≡ bs
unfolding Short.from_bits Short.to_bits
short_bytes bs e h = to_be_bytes_width 4 bs e h

timestamp_bytes :
    (bs : List ℕ)
    → length bs ≡ 8
    → All IsByte bs
    → to_be_bytes 8 (Timestamp.to_bits (Timestamp.from_bits (from_be_bytes bs))) ≡ bs
timestamp_bytes bs e h =
    rw (to_bits-from_bits (from_be_bytes bs) (rw e at (from_be_bytes-lt bs h)))
      (to_be_bytes_width 8 bs e h)

quad_bytes-to_quad : (bs : List ℕ) → length bs ≡ 4 → quad_bytes (to_quad bs) ≡ bs
quad_bytes-to_quad (a ∷ b ∷ c ∷ d ∷ []) e = refl
quad_bytes-to_quad [] e = absurd (omega arith)
quad_bytes-to_quad (a ∷ []) e = absurd (omega arith)
quad_bytes-to_quad (a ∷ b ∷ []) e = absurd (omega arith)
quad_bytes-to_quad (a ∷ b ∷ c ∷ []) e = absurd (omega arith)
quad_bytes-to_quad (a ∷ b ∷ c ∷ d ∷ x ∷ r) e = absurd (omega arith)

module _ (buf : List ℕ) (bytes : All IsByte buf) (long : packet_len ≤ length buf) where
  -- The words of the header, from byte 4 on.
  words_are_slices :
      to_be_bytes 4 (Short.to_bits (short_at buf 4))
        ++ (to_be_bytes 4 (Short.to_bits (short_at buf 8))
            ++ (quad_bytes (to_quad (slice buf 12 4))
                ++ (to_be_bytes 8 (Timestamp.to_bits (timestamp_at buf 16))
                    ++ (to_be_bytes 8 (Timestamp.to_bits (timestamp_at buf 24))
                        ++ (to_be_bytes 8 (Timestamp.to_bits (timestamp_at buf 32))
                            ++ to_be_bytes 8 (Timestamp.to_bits (timestamp_at buf 40)))))))
      ≡ slice buf 4 44
  unfolding short_at timestamp_at
  words_are_slices =
      (λ i.
        short 4 (omega arith) i
        ++ (short 8 (omega arith) i
            ++ (quad_bytes-to_quad (slice buf 12 4) (length-slice buf 12 4 (omega arith)) i
                ++ (stamp 16 (omega arith) i
                    ++ (stamp 24 (omega arith) i
                        ++ (stamp 32 (omega arith) i ++ stamp 40 (omega arith) i))))))
      ∙ sym joined
    where
      short :
          (at : ℕ)
          → at + 4 ≤ 48
          → to_be_bytes 4 (Short.to_bits (Short.from_bits (from_be_bytes (slice buf at 4))))
            ≡ slice buf at 4
      short at h =
          short_bytes (slice buf at 4) (length-slice buf at 4 (omega arith))
            (slice-IsByte buf at 4 bytes)

      stamp :
          (at : ℕ)
          → at + 8 ≤ 48
          → to_be_bytes 8 (Timestamp.to_bits (Timestamp.from_bits (from_be_bytes (slice buf at 8))))
            ≡ slice buf at 8
      stamp at h =
          timestamp_bytes (slice buf at 8) (length-slice buf at 8 (omega arith))
            (slice-IsByte buf at 8 bytes)

      joined :
          slice buf 4 44
          ≡ slice buf 4 4
            ++ (slice buf 8 4
                ++ (slice buf 12 4
                    ++ (slice buf 16 8 ++ (slice buf 24 8 ++ (slice buf 32 8 ++ slice buf 40 8)))))
      joined =
          slice_split buf 4 4 40
          ∙ ap (λ l. slice buf 4 4 ++ l)
              (slice_split buf 8 4 36
                ∙ ap (λ l. slice buf 8 4 ++ l)
                    (slice_split buf 12 4 32
                      ∙ ap (λ l. slice buf 12 4 ++ l)
                          (slice_split buf 16 8 24
                            ∙ ap (λ l. slice buf 16 8 ++ l)
                                (slice_split buf 24 8 16
                                  ∙ ap (λ l. slice buf 24 8 ++ l) (slice_split buf 32 8 8)))))

first_four :
    (buf : List ℕ)
    → 4 ≤ length buf
    → get_or buf 0 0 ∷ get_or buf 1 0 ∷ get_or buf 2 0 ∷ get_or buf 3 0 ∷ [] ≡ take 4 buf
first_four (a ∷ b ∷ c ∷ d ∷ r) h = refl
first_four [] h = absurd (omega arith)
first_four (a ∷ []) h = absurd (omega arith)
first_four (a ∷ b ∷ []) h = absurd (omega arith)
first_four (a ∷ b ∷ c ∷ []) h = absurd (omega arith)

get_or-IsByte : (buf : List ℕ) (i : ℕ) → All IsByte buf → get_or buf i 0 < 256
get_or-IsByte [] i h = omega arith
get_or-IsByte (b ∷ bs) zero h = h.0
get_or-IsByte (b ∷ bs) (suc i) h = get_or-IsByte bs i h.1

-- When a buffer of bytes decodes to a packet, encoding the packet gives back the first 48 bytes
-- of the buffer.
pub encode-decode :
    (buf : List ℕ) (p : NtpPacket)
    → All IsByte buf
    → decode buf ≡ some p
    → encode p ≡ take packet_len buf
encode-decode buf p bytes e = subst (λ q. encode q ≡ take packet_len buf) fields wire
  where
    long : packet_len ≤ length buf
    long = unfold decode in ground arith

    fields : read_fields buf ≡ p
    fields = cc (decode-eq buf long)

    byte : (i : ℕ) → get_or buf i 0 < 256
    byte i = get_or-IsByte buf i bytes

    wire : encode (read_fields buf) ≡ take packet_len buf
    wire =
        unfold encode read_fields in
        (λ i.
          first_byte-fields (get_or buf 0 0) (byte 0) i
          ∷ get_or buf 1 0
          ∷ as_u8-as_i8 (get_or buf 2 0) (byte 2) i
          ∷ as_u8-as_i8 (get_or buf 3 0) (byte 3) i
          ∷ words_are_slices buf bytes long i)
        ∙ ap (λ l. l ++ slice buf 4 44) (first_four buf (omega (arith, long)))
        ∙ sym (take_split 4 44 buf)
