-- ===== src/Pico10baseT/Phy/Symbols.antt =====
-- What one Manchester word puts on the line, and a receiver that reads it.
use pico_gnss.Base.{
  ℕ, zero, suc, ◌+◌, ◌*◌, ◌/◌, ◌%◌, ◌^◌, ◌<◌, ◌≡◌, refl, arith, Bool, true, false, ◌&&◌, Option,
  none, some, ◌==◌, if◌then◌else◌, get_or, ==_iff,
}
use pico_gnss.Base.Bits.{all_below, all_below_sound}
use pico_gnss.Pico10baseT.Phy.{
  symbol_low, symbol_high, tp_idl_word, manchester_word, manchester_table,
}

-- The n-th two-bit symbol in the order of transmission, as the serialiser shifts them out.
abbrev pub symbol : ℕ → ℕ → ℕ
symbol word n = word / 4 ^ n % 4

-- A bit that starts low and ends high is 1, the other transition is 0, and no other is a bit.
abbrev pub read_bit : ℕ → ℕ → Option ℕ
read_bit word bit =
    let first = symbol word (2 * bit) in
    let second = symbol word (2 * bit + 1) in
    if (first == symbol_low) && (second == symbol_high)
    then some 1
    else if (first == symbol_high) && (second == symbol_low)
    then some 0
    else none

pub read_bits : ℕ → ℕ → ℕ → Option ℕ
read_bits zero word bit = some 0
read_bits (suc rounds) word bit = elim (read_bit word bit) [
  | none ↦ none
  | some b ↦ elim (read_bits rounds word (bit + 1)) [ none ↦ none | some r ↦ some (2 * r + b) ]
]

-- The byte on the line: eight transitions, the lowest bit first.
pub read_word : ℕ → Option ℕ
unfolding read_bits
read_word word = read_bits 8 word 0

abbrev is_some_of : Option ℕ → ℕ → Bool
is_some_of none b = false
is_some_of (some a) b = a == b

read_word_table : all_below 256 (λ b. is_some_of (read_word (manchester_word b)) b) ≡ true
unfolding all_below read_word manchester_word
read_word_table = refl

is_some_of-eq : (o : Option ℕ) (b : ℕ) → is_some_of o b ≡ true → o ≡ some b
is_some_of-eq none b h = cc
is_some_of-eq (some a) b h = ground arith

-- Every byte is read back from the 16 symbols of its Manchester word, with a transition in each
-- bit period and the lowest bit first.
pub read_word-manchester_word : (b : ℕ) → b < 256 → read_word (manchester_word b) ≡ some b
read_word-manchester_word b h = is_some_of-eq _ b (all_below_sound 256 _ b read_word_table h)

table_entries : all_below 256 (λ b. get_or manchester_table b 0 == manchester_word b) ≡ true
unfolding all_below manchester_table manchester_word
table_entries = refl

-- The table holds the word of each byte.
pub manchester_table-eq : (b : ℕ) → b < 256 → get_or manchester_table b 0 ≡ manchester_word b
manchester_table-eq b h = (==_iff _ _).0 (all_below_sound 256 _ b table_entries h)

-- The end of a transmission is the word of no byte.
pub end_is_no_byte : read_word tp_idl_word ≡ none
unfolding read_word
end_is_no_byte = refl
