-- ===== src/Pico10baseT/Crc/Bitwise.antt =====
-- The table gives the same checksum as the loop over the bits that it replaced.
use pico_gnss.Base.{
  ℕ, zero, suc, ◌-◌, ◌*◌, ◌/◌, ◌%◌, ◌^◌, ◌<◌, ◌≡◌, refl, ap, ◌∙◌, arith, List, [], ◌∷◌, foldl, true,
  bit_xor, ◌==◌, if◌then◌else◌, get_or, All,
}
use pico_gnss.Base.Bits.{all_below, agree_below, and_mask}
use pico_gnss.Base.Bits.Xor.{
  xor_half, xor_parity, xor_swap, xor_comm, xor_self, xor-zero, zero-xor, xor_disjoint,
  xor_byte_shift,
}
use pico_gnss.Base.Bytes.{IsByte}
use pico_gnss.Pico10baseT.Crc.{
  polynomial, u32_max, fold_bit, fold_bits, crc32_table, add_byte, crc32,
}

pub fold_bit_odd : (c : ℕ) → fold_bit c ≡ bit_xor (c / 2) (if c % 2 == 0 then 0 else polynomial)
unfolding fold_bit
fold_bit_odd c = ground (arith, and_mask 1 c, xor-zero (c / 2))

-- The polynomial division of one bit is linear.
pub fold_bit-xor : (a b : ℕ) → fold_bit (bit_xor a b) ≡ bit_xor (fold_bit a) (fold_bit b)
fold_bit-xor a b = ground (
  arith,
  fold_bit_odd a,
  fold_bit_odd b,
  fold_bit_odd (bit_xor a b),
  xor_half a b,
  xor_parity a b,
  xor_swap (a / 2) (if a % 2 == 0 then 0 else polynomial) (b / 2)
      (if b % 2 == 0 then 0 else polynomial),
  xor_self polynomial,
  zero-xor polynomial,
  xor-zero polynomial,
  zero-xor 0,
)

pub fold_bits-xor :
    (n a b : ℕ) → fold_bits n (bit_xor a b) ≡ bit_xor (fold_bits n a) (fold_bits n b)
unfolding fold_bits
fold_bits-xor zero a b = refl
fold_bits-xor (suc n) a b =
    ap (fold_bits n) (fold_bit-xor a b) ∙ fold_bits-xor n (fold_bit a) (fold_bit b)

fold_bit_even : (c : ℕ) → fold_bit (c * 2) ≡ c
unfolding fold_bit
fold_bit_even c = ground (arith, and_mask 1 (c * 2))

-- Eight zero bits are shifted out.
pub fold_bits_shift : (c : ℕ) → fold_bits 8 (c * 2 ^ 8) ≡ c
unfolding fold_bits
fold_bits_shift c = ground (
  arith,
  fold_bit_even (c * 128),
  fold_bit_even (c * 64),
  fold_bit_even (c * 32),
  fold_bit_even (c * 16),
  fold_bit_even (c * 8),
  fold_bit_even (c * 4),
  fold_bit_even (c * 2),
  fold_bit_even c,
)

table_entries : all_below 256 (λ i. get_or crc32_table i 0 == fold_bits 8 i) ≡ true
unfolding all_below crc32_table fold_bits fold_bit
table_entries = refl

pub crc32_table-eq : (i : ℕ) → i < 256 → get_or crc32_table i 0 ≡ fold_bits 8 i
crc32_table-eq = agree_below (λ i. get_or crc32_table i 0) (fold_bits 8) 256 table_entries

-- One look-up does the work of eight rounds.
pub add_byte-eq : (crc byte : ℕ) → byte < 256 → add_byte crc byte ≡ fold_bits 8 (bit_xor crc byte)
unfolding add_byte
add_byte-eq crc byte h = ground (
  arith,
  and_mask 8 x,
  crc32_table-eq (x % 256),
  xor_byte_shift crc byte,
  xor-zero (crc / 256),
  xor_disjoint 8 (x / 256) (x % 256),
  fold_bits-xor 8 (x / 256 * 256) (x % 256),
  fold_bits_shift (x / 256),
  xor_comm (fold_bits 8 (x % 256)) (crc / 256),
)
  where
    x : ℕ
    x = bit_xor crc byte

-- CRC-32 by polynomial division, bit by bit, as IEEE 802.3 defines it.
abbrev pub divide_byte : ℕ → ℕ → ℕ
divide_byte c b = fold_bits 8 (bit_xor c b)

abbrev pub crc32_bitwise : List ℕ → ℕ
crc32_bitwise bytes = u32_max - foldl divide_byte u32_max bytes

pub foldl-add_byte :
    (bytes : List ℕ) (c : ℕ) → All IsByte bytes → foldl add_byte c bytes ≡ foldl divide_byte c bytes
foldl-add_byte [] c h = refl
foldl-add_byte (b ∷ bs) c h =
    foldl-add_byte bs (add_byte c b) h.1
    ∙ ap (λ (x : ℕ). foldl divide_byte x bs) (add_byte-eq c b h.0)

-- On a list of bytes the table-driven CRC-32 is the bit-by-bit polynomial division.
pub crc32-crc32_bitwise : (bytes : List ℕ) → All IsByte bytes → crc32 bytes ≡ crc32_bitwise bytes
unfolding crc32
crc32-crc32_bitwise bytes h = ap (λ (x : ℕ). u32_max - x) (foldl-add_byte bytes u32_max h)
