-- ===== src/Pico10baseT/Crc/Residue.antt =====
-- A frame that carries its own checksum: what a receiver's CRC comes to.
use pico_gnss.Base.{
  ℕ, zero, suc, ◌-◌, ◌*◌, ◌/◌, ◌%◌, ◌^◌, ◌<◌, ◌≡◌, refl, ap, ◌∙◌, arith, List, [], ◌∷◌, ◌++◌, foldl,
  bit_xor, All,
}
use native.Mathlib.Nat.{pow-suc}
use pico_gnss.Base.Bits.Xor.{xor_assoc, xor_comm, xor-zero, xor_disjoint, xor-lt, xor_complement}
use pico_gnss.Base.Bytes.{IsByte, to_le_bytes, to_le_bytes-IsByte}
use pico_gnss.Pico10baseT.Crc.{polynomial, u32_max, fold_bit, fold_bits, add_byte, crc32}
use pico_gnss.Pico10baseT.Crc.Bitwise.{
  fold_bit_odd, fold_bits-xor, fold_bits_shift, divide_byte, foldl-add_byte,
}

fold_bit-lt : (c : ℕ) → c < 2 ^ 32 → fold_bit c < 2 ^ 32
fold_bit-lt c h = ground (arith, fold_bit_odd c, xor-lt 32 (c / 2) polynomial, xor-zero (c / 2))

fold_bits-lt : (n c : ℕ) → c < 2 ^ 32 → fold_bits n c < 2 ^ 32
unfolding fold_bits
fold_bits-lt zero c h = h
fold_bits-lt (suc n) c h = fold_bits-lt n (fold_bit c) (fold_bit-lt c h)

state-lt :
    (bytes : List ℕ) (c : ℕ) → All IsByte bytes → c < 2 ^ 32 → foldl divide_byte c bytes < 2 ^ 32
state-lt [] c h k = k
state-lt (b ∷ bs) c h k =
    state-lt bs (divide_byte c b) h.1 (fold_bits-lt 8 _ (xor-lt 32 c b k (omega (arith, h.0))))

-- The checksum is a 32-bit word.
pub crc32-lt : (bytes : List ℕ) → crc32 bytes < 2 ^ 32
unfolding crc32
crc32-lt bytes = omega arith

rounds : ℕ → ℕ → ℕ
rounds zero c = c
rounds (suc n) c = rounds n (fold_bits 8 c)

-- Feeding the bytes of a word, lowest first, divides the state with the word added at once.
feed_word :
    (n c v : ℕ) → v < 256 ^ n → foldl divide_byte c (to_le_bytes n v) ≡ rounds n (bit_xor c v)
unfolding rounds
feed_word zero c v h = ground (arith, xor-zero c)
feed_word (suc n) c v h =
    feed_word n (divide_byte c (v % 256)) (v / 256) (omega (arith, pow-suc 256 n))
    ∙ ap (rounds n) step
  where
    step : bit_xor (divide_byte c (v % 256)) (v / 256) ≡ fold_bits 8 (bit_xor c v)
    step = ground (
      arith,
      fold_bits_shift (v / 256),
      fold_bits-xor 8 (bit_xor c (v % 256)) (v / 256 * 256),
      xor_assoc c (v % 256) (v / 256 * 256),
      xor_comm (v % 256) (v / 256 * 256),
      xor_disjoint 8 (v / 256) (v % 256),
    )

all_ones : rounds 4 u32_max ≡ 0xdebb20e3
unfolding rounds fold_bits fold_bit
all_ones = refl

foldl-append :
    (f : ℕ → ℕ → ℕ) (xs ys : List ℕ) (c : ℕ) → foldl f c (xs ++ ys) ≡ foldl f (foldl f c xs) ys
foldl-append f [] ys c = refl
foldl-append f (x ∷ xs) ys c = foldl-append f xs ys (f c x)

-- The CRC-32 of a list of bytes followed by its own CRC-32 in little-endian order is the constant
-- 0x2144df1c.
pub crc32_residue :
    (bytes : List ℕ) → All IsByte bytes → crc32 (bytes ++ to_le_bytes 4 (crc32 bytes)) ≡ 0x2144df1c
unfolding crc32
crc32_residue bytes h =
    ap (λ (x : ℕ). u32_max - x)
      (foldl-append add_byte bytes (to_le_bytes 4 (u32_max - s)) u32_max
        ∙ foldl-add_byte (to_le_bytes 4 (u32_max - s)) s (to_le_bytes-IsByte 4 (u32_max - s))
        ∙ feed_word 4 s (u32_max - s) (omega arith)
        ∙ ap (rounds 4) (xor_complement 32 s s-lt)
        ∙ all_ones)
  where
    s : ℕ
    s = foldl add_byte u32_max bytes

    s-lt : s < 2 ^ 32
    s-lt = rw (foldl-add_byte bytes u32_max h) (state-lt bytes u32_max h (omega arith))
