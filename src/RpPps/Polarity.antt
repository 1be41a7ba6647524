-- ===== src/RpPps/Polarity.antt =====
-- rp-pps/src/lib.rs: which level of the pin is the pulse.
pub mod Majority
use pico_gnss.Base.{
  ℕ, ◌+◌, ◌*◌, ◌/◌, ◌%◌, ◌^◌, ◌-◌, min, Bool, true, false, not, ◌&&◌, Option, none, some, ltb, ◌==◌,
  if◌then◌else◌,
}

pub data PpsPolarity : Type 0 where
  active_high active_low : PpsPolarity

pub record PolarityProbe : Type 0 where
  pub high : ℕ
  pub total : ℕ

abbrev pub new : PolarityProbe
new = record { high = 0; total = 0 }

-- `saturating_add(1)` on `u32`.
abbrev pub count : ℕ → ℕ
count n = min (2 ^ 32 - 1) (n + 1)

pub sample : PolarityProbe → Bool → PolarityProbe
sample self pin_high = record {
  high = if pin_high then count self.high else self.high;
  total = count self.total;
}

pub samples : PolarityProbe → ℕ
samples self = self.total

-- The product is on `u32`.
pub duty_percent : PolarityProbe → Option ℕ
duty_percent self = if self.total == 0 then none else some (self.high * 100 % 2 ^ 32 / self.total)

pub saw_pulse : PolarityProbe → Bool
saw_pulse self = not (self.high == 0) && not (self.high == self.total)

pub polarity : PolarityProbe → Option PpsPolarity
polarity self = elim (duty_percent self) [
  | none ↦ none
  | some pct ↦ some (if ltb 50 pct then active_low else active_high)
]
