-- ===== src/PicoNtp/Link/Command.antt =====
-- A command to the receiver is a valid sentence of its own.
use pico_gnss.Base.{
  ℕ, ◌+◌, ◌/◌, ◌%◌, ◌≤◌, ◌<◌, ◌≡◌, ◌≢◌, refl, sym, ap, ◌∙◌, arith, true, List, [], ◌∷◌, ◌++◌,
  length, length-append, All, All-append, le→ltb_false,
}
use mathlib.Core.List.{append_assoc}
use pico_gnss.Base.Bytes.{IsByte}
use pico_gnss.RpPps.Assembler.{
  dollar, star, carriage_return, line_feed, NmeaLineAssembler, nmea_checksum, nmea_checksum_valid,
}
use pico_gnss.RpPps.Assembler.Framing.{IsPlain, feed}
use pico_gnss.RpPps.Assembler.Stream.{stream, fitting, feed-stream}
use pico_gnss.RpPps.Assembler.Sums.{
  upper_hex, nmea_checksum-lt, corrupted, framed, nmea_checksum_valid-framed,
}
use pico_gnss.PicoNtp.Link.{pmtk_line}

-- `payload*hh`.
abbrev body : List ℕ → List ℕ
body payload =
    payload
    ++ star ∷ upper_hex (nmea_checksum payload / 16) ∷ upper_hex (nmea_checksum payload % 16) ∷ []

pmtk_line-eq : (payload : List ℕ) → pmtk_line payload ≡ stream (body payload ∷ [])
unfolding pmtk_line stream
pmtk_line-eq payload =
    let sum = nmea_checksum payload in
    ap (λ l. dollar ∷ l)
      (sym (
        append_assoc payload (star ∷ upper_hex (sum / 16) ∷ upper_hex (sum % 16) ∷ [])
          (carriage_return ∷ line_feed ∷ [])))

upper_hex-IsPlain : (n : ℕ) → n < 16 → IsPlain (upper_hex n)
upper_hex-IsPlain n h = ground arith

body-IsPlain :
    (payload : List ℕ) → All IsByte payload → All IsPlain payload → All IsPlain (body payload)
body-IsPlain payload bytes plain =
    let sum = nmea_checksum payload in
    let small : sum < 256 = nmea_checksum-lt payload bytes in
    All-append IsPlain payload (star ∷ upper_hex (sum / 16) ∷ upper_hex (sum % 16) ∷ []) plain (
      ((λ e. omega arith), (λ e. omega arith), (λ e. omega arith)),
      (
        upper_hex-IsPlain (sum / 16) (omega (arith, small)),
        (upper_hex-IsPlain (sum % 16) (omega arith), tt),
      ),
    )

length-body : (payload : List ℕ) → length (body payload) ≡ length payload + 3
length-body payload =
    length-append payload
      (star ∷ upper_hex (nmea_checksum payload / 16) ∷ upper_hex (nmea_checksum payload % 16) ∷ [])

fitting-body :
    (payload : List ℕ) → length payload ≤ 78 → fitting (body payload ∷ []) ≡ framed payload ∷ []
unfolding fitting corrupted
fitting-body payload short =
    rw (le→ltb_false 81 (length (body payload)) (omega (arith, short, length-body payload))) refl

-- From any state of the assembler, the line of a command of at most 78 bytes without `$`, `*`, CR
-- and LF comes out as one sentence, whose checksum is valid.
pub feed-pmtk_line :
    (s : NmeaLineAssembler) (payload : List ℕ)
    → All IsByte payload
    → All IsPlain payload
    → All (λ b. b ≢ star) payload
    → length payload ≤ 78
    → ((feed s (pmtk_line payload)).1 ≡ framed payload ∷ [])
      × (nmea_checksum_valid (framed payload) ≡ true)
feed-pmtk_line s payload bytes plain no_star short =
    let fed : (feed s (pmtk_line payload)).1 ≡ framed payload ∷ [] =
      ap (λ l. (feed s l).1) (pmtk_line-eq payload)
      ∙ feed-stream s (body payload ∷ [])
          ((body-IsPlain payload bytes plain, omega (arith, length-body payload)), tt)
      ∙ fitting-body payload short in
    (fed, nmea_checksum_valid-framed payload bytes no_star)
