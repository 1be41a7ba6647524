-- ===== src/RpPps/Assembler/Sums.antt =====
-- The checksum of a sentence: what `nmea_checksum_valid` accepts, and what it notices.
use pico_gnss.Base.{
  ℕ, ◌+◌, ◌/◌, ◌%◌, ◌<◌, ◌≡◌, ◌≢◌, refl, sym, ap, ◌∙◌, arith, true, false, List, [], ◌∷◌, ◌++◌,
  some, foldl, bit_xor, All, ltb, if◌then◌else◌,
}
use mathlib.Core.List.{foldl-append}
use pico_gnss.Base.Bits.Xor.{xor-lt, xor_comm, xor_cancel}
use pico_gnss.Base.Bytes.{IsByte}
use pico_gnss.RpPps.Assembler.{
  dollar, star, nmea_checksum, strip_dollar, split_star, hex_digit, from_hex, nmea_checksum_valid,
}

-- One hexadecimal digit as `{:02X}` writes it.
abbrev pub upper_hex : ℕ → ℕ
upper_hex n = if ltb n 10 then 48 + n else 55 + n

-- `${received}*{checksum:02X}`, with the checksum of what was sent.
unfoldable pub corrupted : List ℕ → List ℕ → List ℕ
corrupted sent received =
    dollar
    ∷ (received
        ++ star ∷ upper_hex (nmea_checksum sent / 16) ∷ upper_hex (nmea_checksum sent % 16) ∷ [])

abbrev pub framed : List ℕ → List ℕ
framed payload = corrupted payload payload

split_star-append :
    (payload sum : List ℕ)
    → All (λ b. b ≢ star) payload
    → split_star (payload ++ star ∷ sum) ≡ some (payload, sum)
unfolding split_star
split_star-append [] sum h = refl
split_star-append (b ∷ bs) sum (p, h) = ground (arith, split_star-append bs sum h)

from_hex-upper_hex :
    (n : ℕ) → n < 256 → from_hex (upper_hex (n / 16) ∷ upper_hex (n % 16) ∷ []) ≡ some n
unfolding from_hex hex_digit
from_hex-upper_hex n h = ground arith

foldl-lt : (bytes : List ℕ) (c : ℕ) → c < 256 → All IsByte bytes → foldl bit_xor c bytes < 256
foldl-lt [] c h bs = h
foldl-lt (b ∷ bytes) c h (p, bs) = foldl-lt bytes (bit_xor c b) (xor-lt 8 c b h p) bs

pub nmea_checksum-lt : (payload : List ℕ) → All IsByte payload → nmea_checksum payload < 256
unfolding nmea_checksum
nmea_checksum-lt payload bytes = foldl-lt payload 0 (omega arith) bytes

-- A payload of bytes without `*`, framed with its checksum in two upper-case hexadecimal digits,
-- is valid.
pub nmea_checksum_valid-framed :
    (payload : List ℕ)
    → All IsByte payload
    → All (λ b. b ≢ star) payload
    → nmea_checksum_valid (framed payload) ≡ true
unfolding corrupted nmea_checksum_valid strip_dollar
nmea_checksum_valid-framed payload bytes h =
    let sum = nmea_checksum payload in
    ground (
      arith,
      split_star-append payload (upper_hex (sum / 16) ∷ upper_hex (sum % 16) ∷ []) h,
      from_hex-upper_hex sum (nmea_checksum-lt payload bytes),
    )

xor_inj : (a b x : ℕ) → bit_xor a x ≡ bit_xor b x → a ≡ b
xor_inj a b x e = sym (xor_cancel a x) ∙ ap (λ (y : ℕ). bit_xor y x) e ∙ xor_cancel b x

foldl_inj : (bytes : List ℕ) (c d : ℕ) → foldl bit_xor c bytes ≡ foldl bit_xor d bytes → c ≡ d
foldl_inj [] c d e = e
foldl_inj (b ∷ bytes) c d e = xor_inj c d b (foldl_inj bytes (bit_xor c b) (bit_xor d b) e)

nmea_checksum_inj :
    (front back : List ℕ) (a b : ℕ)
    → nmea_checksum (front ++ a ∷ back) ≡ nmea_checksum (front ++ b ∷ back)
    → a ≡ b
unfolding nmea_checksum
nmea_checksum_inj front back a b e =
    let s = foldl bit_xor 0 front in
    let same = foldl_inj back (bit_xor s a) (bit_xor s b) (
      sym (foldl-append bit_xor 0 front (a ∷ back))
      ∙ e
      ∙ foldl-append bit_xor 0 front (b ∷ back)) in
    xor_inj a b s (xor_comm a s ∙ same ∙ xor_comm s b)

-- A sentence whose payload differs from what was sent, a list of bytes, in one item, and has no
-- `*`, is not valid with the checksum of what was sent.
pub nmea_checksum_valid-corrupted :
    (front back : List ℕ) (a b : ℕ)
    → a ≢ b
    → All IsByte (front ++ a ∷ back)
    → All (λ c. c ≢ star) (front ++ b ∷ back)
    → nmea_checksum_valid (corrupted (front ++ a ∷ back) (front ++ b ∷ back)) ≡ false
unfolding corrupted nmea_checksum_valid strip_dollar
nmea_checksum_valid-corrupted front back a b other bytes plain =
    let sum = nmea_checksum (front ++ a ∷ back) in
    ground (
      arith,
      split_star-append (front ++ b ∷ back) (upper_hex (sum / 16) ∷ upper_hex (sum % 16) ∷ [])
          plain,
      from_hex-upper_hex sum (nmea_checksum-lt (front ++ a ∷ back) bytes),
      changed,
    )
  where
    changed : nmea_checksum (front ++ b ∷ back) ≢ nmea_checksum (front ++ a ∷ back)
    changed e = other (nmea_checksum_inj front back a b (sym e))
