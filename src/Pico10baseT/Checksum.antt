-- ===== src/Pico10baseT/Checksum.antt =====
-- pico-10base-t/src/frame.rs: `ones_complement_checksum`, with the `u32` accumulator.
pub mod Verify
use pico_gnss.Base.{ℕ, zero, suc, ◌+◌, ◌-◌, ◌*◌, ◌/◌, ◌%◌, ◌^◌, List, [], ◌∷◌, true, false, ◌==◌}

abbrev pub u16_max : ℕ
u16_max = 65535

-- The loop over `chunks_exact(2)`, then the odd byte as the high half of a last word.
pub sum_words : List ℕ → ℕ → ℕ
sum_words [] sum = sum
sum_words (a ∷ []) sum = (sum + a * 256) % 2 ^ 32
sum_words (a ∷ b ∷ rest) sum = sum_words rest ((sum + (a * 256 + b)) % 2 ^ 32)

-- `while sum >> 16 != 0`. Two rounds empty the high half of any `u32`, so four tests are enough.
pub fold_carries : ℕ → ℕ → ℕ
fold_carries zero sum = sum
fold_carries (suc fuel) sum = elim (sum / 2 ^ 16 == 0) [
  | true ↦ sum
  | false ↦ fold_carries fuel (sum % 2 ^ 16 + sum / 2 ^ 16)
]

-- `!(sum as u16)`.
pub ones_complement_checksum : List ℕ → ℕ → ℕ
ones_complement_checksum bytes initial = u16_max - fold_carries 4 (sum_words bytes initial) % 2 ^ 16
