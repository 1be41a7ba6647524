-- ===== src/Pico10baseT/Phy.antt =====
-- pico-10base-t/src/phy.rs: Manchester words, their table, and a whole frame on the line.
-- The PIO program itself is an assembler text and is not modelled.
pub mod Symbols
pub mod Line
use Prim.Native.Nat.{bit_and, bit_or}
use pico_gnss.Base.{
  ℕ, zero, suc, ◌+◌, ◌*◌, ◌/◌, ◌^◌, Bool, List, [], ◌∷◌, ◌++◌, Option, none, some, ltb, ◌==◌,
  if◌then◌else◌, length, get_or, set,
}

abbrev pub symbol_idle : ℕ
symbol_idle = 0

abbrev pub symbol_low : ℕ
symbol_low = 1

abbrev pub symbol_high : ℕ
symbol_high = 2

abbrev pub preamble_sfd : List ℕ
preamble_sfd = 0x55 ∷ 0x55 ∷ 0x55 ∷ 0x55 ∷ 0x55 ∷ 0x55 ∷ 0x55 ∷ 0xd5 ∷ []

abbrev pub tp_idl_word : ℕ
tp_idl_word = 0xaaa

abbrev pub nlp_word : ℕ
nlp_word = 0xa

abbrev pub pio_clock_hz : ℕ
pio_clock_hz = 20_000_000

-- `(((clk_hz as u64) << 8) / PIO_CLOCK_HZ as u64) as u32`: no `u32` clock reaches 2 ^ 32 here.
pub pio_clock_divider_bits : ℕ → ℕ
pio_clock_divider_bits clk_hz = clk_hz * 2 ^ 8 / pio_clock_hz

-- `while bit < 8`, by the rounds that are left.
manchester_loop : ℕ → ℕ → ℕ → ℕ → ℕ
manchester_loop zero byte bit word = word
manchester_loop (suc rounds) byte bit word =
    let nibble : ℕ = if bit_and byte (2 ^ bit) == 0 then 6 else 9 in
    manchester_loop rounds byte (bit + 1) (bit_or word (nibble * 2 ^ (4 * bit)))

pub manchester_word : ℕ → ℕ
unfolding manchester_loop
manchester_word byte = manchester_loop 8 byte 0 0

-- `while i < 256`, by the rounds that are left.
table_loop : ℕ → ℕ → List ℕ
table_loop zero i = []
table_loop (suc rounds) i = manchester_word i ∷ table_loop rounds (i + 1)

pub manchester_table : List ℕ
unfolding table_loop
manchester_table = table_loop 256 0

unfoldable pub encoded_words : ℕ → ℕ
encoded_words frame_len = length preamble_sfd + frame_len + 1

-- One of the two `for` loops of `encode_frame`: the buffer and the index after it.
write_words : List ℕ → List ℕ → ℕ → List ℕ × ℕ
write_words [] out i = (out, i)
write_words (b ∷ bs) out i = write_words bs (set out i (get_or manchester_table b 0)) (i + 1)

-- The words written and the buffer, or `none` where it is too small.
pub encode_frame : List ℕ → List ℕ → Option (ℕ × List ℕ)
encode_frame frame out =
    let n = encoded_words (length frame) in
    let (out₁, i₁) = write_words preamble_sfd out 0 in
    let (out₂, i₂) = write_words frame out₁ i₁ in
    if ltb (length out) n then none else some (i₂ + 1, set out₂ i₂ tp_idl_word)
