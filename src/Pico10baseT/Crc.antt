-- ===== src/Pico10baseT/Crc.antt =====
-- pico-10base-t/src/frame.rs: `crc32` and its table.
pub mod Bitwise
pub mod Residue
use pico_gnss.Base.{
  ℕ, zero, suc, ◌+◌, ◌-◌, ◌/◌, ◌^◌, List, [], ◌∷◌, foldl, bit_and, bit_xor, ◌==◌, if◌then◌else◌,
  get_or,
}

abbrev pub polynomial : ℕ
polynomial = 0xedb88320

abbrev pub u32_max : ℕ
u32_max = 2 ^ 32 - 1

-- One round of the loop over the bits of a table entry.
unfoldable pub fold_bit : ℕ → ℕ
fold_bit c = if bit_and c 1 == 0 then c / 2 else bit_xor (c / 2) polynomial

-- `while bit < 8`, by the rounds that are left.
unfoldable pub fold_bits : ℕ → ℕ → ℕ
fold_bits zero c = c
fold_bits (suc rounds) c = fold_bits rounds (fold_bit c)

-- `while i < 256`, by the rounds that are left.
table_loop : ℕ → ℕ → List ℕ
table_loop zero i = []
table_loop (suc rounds) i = fold_bits 8 i ∷ table_loop rounds (i + 1)

pub crc32_table : List ℕ
unfolding table_loop
crc32_table = table_loop 256 0

-- The loop's body for one byte; the index is masked to a byte, so it is in range.
pub add_byte : ℕ → ℕ → ℕ
add_byte crc byte = bit_xor (get_or crc32_table (bit_and (bit_xor crc byte) 0xff) 0) (crc / 2 ^ 8)

-- `!crc` on `u32` is the difference from all ones.
pub crc32 : List ℕ → ℕ
crc32 bytes = u32_max - foldl add_byte u32_max bytes
