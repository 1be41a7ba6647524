-- ===== src/RpPps/Assembler.antt =====
-- rp-pps/src/assembler.rs: sentences out of a stream of bytes, and their checksum.
-- A `&str` is the list of its bytes: every cut below falls on an ASCII byte, or the result is
-- `false` for the byte model and for the source alike.
pub mod Framing
pub mod Sentences
pub mod Stream
pub mod Sums
use pico_gnss.Base.{
  ℕ, ◌+◌, ◌-◌, ◌*◌, ◌<◌, Bool, true, false, ◌&&◌, ◌||◌, List, [], ◌∷◌, ◌++◌, Option, none, some,
  foldl, bit_xor, length, ltb, leb, ◌==◌, if◌then◌else◌,
}

abbrev pub max_sentence_len : ℕ
max_sentence_len = 82

-- `b'$'`, `b'\r'`, `b'\n'`, `'*'` and `'+'`.
abbrev pub dollar : ℕ
dollar = 36

abbrev pub carriage_return : ℕ
carriage_return = 13

abbrev pub line_feed : ℕ
line_feed = 10

abbrev pub star : ℕ
star = 42

abbrev pub plus : ℕ
plus = 43

pub record NmeaLineAssembler : Type 0 where
  pub buf : List ℕ
  pub in_sentence : Bool

abbrev pub new : NmeaLineAssembler
new = record { buf = []; in_sentence = false }

-- The state after one byte, and the sentence that it completes.
unfoldable pub push : NmeaLineAssembler → ℕ → NmeaLineAssembler × Option (List ℕ)
push self byte =
    if byte == dollar
    then (record { buf = dollar ∷ []; in_sentence = true }, none)
    else if (byte == carriage_return) || (byte == line_feed)
    then if self.in_sentence && ltb 1 (length self.buf)
      then (record { buf = self.buf; in_sentence = false }, some self.buf)
      else (record { buf = self.buf; in_sentence = false }, none)
    else if self.in_sentence
    then if ltb (length self.buf) max_sentence_len
      then (record { buf = self.buf ++ byte ∷ []; in_sentence = true }, none)
      else (record { buf = []; in_sentence = false }, none)
    else (self, none)

unfoldable pub nmea_checksum : List ℕ → ℕ
nmea_checksum payload = foldl bit_xor 0 payload

-- `strip_prefix('$').unwrap_or(sentence)`.
strip_dollar : List ℕ → List ℕ
strip_dollar [] = []
strip_dollar (b ∷ bs) = if b == dollar then bs else b ∷ bs

-- `split_once('*')`.
split_star : List ℕ → Option (List ℕ × List ℕ)
split_star [] = none
split_star (b ∷ bs) =
    let rest = split_star bs in
    if b == star
    then some ([], bs)
    else elim rest [ none ↦ none | some (payload, sum) ↦ some (b ∷ payload, sum) ]

hex_digit : ℕ → Option ℕ
hex_digit c =
    if leb 48 c && leb c 57
    then some (c - 48)
    else if leb 65 c && leb c 70
    then some (c - 55)
    else if leb 97 c && leb c 102
    then some (c - 87)
    else none

-- `sum.get(0..2)` and `u8::from_str_radix(hex, 16)`, which takes a leading `+` for a sign.
from_hex : List ℕ → Option ℕ
from_hex [] = none
from_hex (a ∷ []) = none
from_hex (a ∷ b ∷ rest) = if a == plus then hex_digit b else elim (hex_digit a) [
  | none ↦ none
  | some high ↦ elim (hex_digit b) [ none ↦ none | some low ↦ some (high * 16 + low) ]
]

pub nmea_checksum_valid : List ℕ → Bool
nmea_checksum_valid sentence = elim (split_star (strip_dollar sentence)) [
  | none ↦ false
  | some (payload, sum) ↦ elim (from_hex sum) [
    | none ↦ false
    | some expected ↦ nmea_checksum payload == expected
  ]
]
