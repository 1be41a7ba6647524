-- ===== src/Gnssdo/Clock/Gates.antt =====
-- Which intervals move the estimate of the clock, and how far.
use pico_gnss.Base.{ℕ, ◌+◌, ◌-◌, ◌^◌, ◌≤◌, ◌<◌, ◌≡◌, ◌⊎◌, ◌↔◌, arith, inl, inr}
use pico_gnss.Base.Int.{
  ℤ, pos, negsuc, pos_part, neg_part, abs_ℕ, ◌+ℤ◌, ◌-ℤ◌, ◌*ℤ◌, ◌≤ℤ◌, div_euclid, int_laws,
  parts_apart,
}
use pico_gnss.Base.Int.Scale.{◌>>ℤ◌, ◌×ℤ◌, to_i64_lem}
use pico_gnss.Gnssdo.Clock.{
  DisciplinedClock, DisciplinedClockConfig, is_locked, FreqUpdate, applied, gated_sane,
  gated_quality, quarantined, update_freq, deviation, is_gated, projected, level_shift,
  apply_measurement,
}
use native.Mathlib.Nat.{div-le_self}

-- The gates fit in `i64`.
pub record Fits (c : DisciplinedClockConfig) : Type 0 where
  pub sane_fits : c.sane_dev_ns < 2 ^ 63
  pub converge_fits : c.converge_gate_ns < 2 ^ 63
  pub residual_fits : c.residual_gate_ns < 2 ^ 63

-- The residual gate behind the lock, widened by the slope.
abbrev pub residual_gate : DisciplinedClock → ℤ
residual_gate s =
    pos (s.config.residual_gate_ns) *ℤ 1000
    +ℤ pos (abs_ℕ s.freq_slope_mppb) ×ℤ s.config.residual_slope_widen

-- A measurement of good quality: any first one, a small deviation before the lock, and behind the
-- lock one that is near to the level.
abbrev pub IsGood : DisciplinedClock → ℤ → Type 0
IsGood s dev =
    (s.samples ≡ 0)
    ⊎ (((s.samples < s.config.lock_samples) × (abs_ℕ dev ≤ s.config.converge_gate_ns))
        ⊎ ((s.config.lock_samples ≤ s.samples)
            × (pos (abs_ℕ (dev *ℤ 1000 -ℤ s.freq_mppb)) ≤ℤ residual_gate s)))

abbrev pub IsAdmitted : DisciplinedClock → ℤ → Type 0
IsAdmitted s interval_ns =
    (abs_ℕ (deviation interval_ns) < s.config.sane_dev_ns)
    × (s.quarantine ≡ 0)
    × IsGood s (deviation interval_ns)

pub update_freq_applied :
    (s : DisciplinedClock) (interval_ns : ℤ)
    → Fits s.config
    → ((update_freq s interval_ns).1 ≡ applied) ↔ IsAdmitted s interval_ns
unfolding update_freq is_gated is_locked
update_freq_applied s interval_ns h = ground (
  arith,
  h.sane_fits,
  h.converge_fits,
  h.residual_fits,
  to_i64_lem (pos s.config.sane_dev_ns),
  to_i64_lem (pos s.config.converge_gate_ns),
  to_i64_lem (pos s.config.residual_gate_ns),
)

-- What is left of a quarantine.
abbrev pub left : FreqUpdate → ℕ → ℕ
left applied quarantine = quarantine
left gated_sane quarantine = quarantine
left gated_quality quarantine = quarantine
left quarantined quarantine = quarantine - 1

-- An interval that is not applied uses up a quarantine at most.
update_freq_held :
    (s : DisciplinedClock) (interval_ns : ℤ)
    → (((update_freq s interval_ns).1 ≡ applied)
        ⊎ ((update_freq s interval_ns).0
            ≡ record s { quarantine = left (update_freq s interval_ns).1 s.quarantine }))
unfolding update_freq
update_freq_held s interval_ns = ground arith

-- For gates that fit in `i64`, an interval is applied exactly when its deviation is within the
-- emergency window, no quarantine runs, and it is the first sample, or before the lock within the
-- converge gate, or behind the lock within the widened residual gate of the level; any other
-- outcome changes nothing but the quarantine, which a quarantined interval lowers by one.
pub update_freq_gates :
    (s : DisciplinedClock) (interval_ns : ℤ)
    → Fits s.config
    → (((update_freq s interval_ns).1 ≡ applied) ↔ IsAdmitted s interval_ns)
      × (((update_freq s interval_ns).1 ≡ applied)
          ⊎ ((update_freq s interval_ns).0
              ≡ record s { quarantine = left (update_freq s interval_ns).1 s.quarantine }))
update_freq_gates s interval_ns h =
    (update_freq_applied s interval_ns h, update_freq_held s interval_ns)

left_le : (outcome : FreqUpdate) (quarantine : ℕ) → left outcome quarantine ≤ quarantine
left_le applied quarantine = omega arith
left_le gated_sane quarantine = omega arith
left_le gated_quality quarantine = omega arith
left_le quarantined quarantine = omega arith

applied_cases :
    (s : DisciplinedClock) (interval_ns : ℤ)
    → (update_freq s interval_ns).1 ≡ applied
    → ((s.samples ≡ 0)
        × ((update_freq s interval_ns).0
            ≡ record s { freq_mppb = deviation interval_ns *ℤ 1000; samples = 1 }))
      ⊎ ((0 < s.samples)
          × ((update_freq s interval_ns).0 ≡ apply_measurement s (deviation interval_ns *ℤ 1000)))
unfolding update_freq
applied_cases s interval_ns h = ground arith

-- The three ways of an interval: nothing but the quarantine moves, the first sample is taken as it
-- is, or the estimate moves.
pub update_freq_cases :
    (s : DisciplinedClock) (interval_ns : ℤ)
    → Fits s.config
    → (((q : ℕ) × (q ≤ s.quarantine)
        × ((update_freq s interval_ns).0 ≡ record s { quarantine = q })))
      ⊎ ((IsAdmitted s interval_ns
            × (s.samples ≡ 0)
            × ((update_freq s interval_ns).0
                ≡ record s { freq_mppb = deviation interval_ns *ℤ 1000; samples = 1 }))
          ⊎ (IsAdmitted s interval_ns
              × (0 < s.samples)
              × ((update_freq s interval_ns).0
                  ≡ apply_measurement s (deviation interval_ns *ℤ 1000))))
update_freq_cases s interval_ns h = elim (update_freq_held s interval_ns) [
  | inl is_applied ↦
      let admitted = (update_freq_applied s interval_ns h).0 is_applied in
      elim (applied_cases s interval_ns is_applied) [
        | inl one ↦ inr (inl (admitted, one.0, one.1))
        | inr more ↦ inr (inr (admitted, more.0, more.1))
      ]
  | inr same ↦
      let outcome = (update_freq s interval_ns).1 in
      inl (left outcome s.quarantine, left_le outcome s.quarantine, same)
]

-- A step by a shift stays between the two ends.
shift_between :
    (r : ℤ) (k : ℕ) → (pos_part (r >>ℤ k) ≤ pos_part r) × (neg_part (r >>ℤ k) ≤ neg_part r)
unfolding ◌>>ℤ◌ div_euclid
shift_between (pos n) k = ground (arith, div-le_self n (2 ^ k))
shift_between (negsuc n) k = ground (arith, div-le_self n (2 ^ k))

-- The level behind a measurement lies between the projected level and the measurement: its
-- distances to the two add up to theirs.
pub level_between :
    (s : DisciplinedClock) (measured : ℤ)
    → abs_ℕ (measured -ℤ (apply_measurement s measured).freq_mppb)
        + abs_ℕ ((apply_measurement s measured).freq_mppb -ℤ projected s)
      ≡ abs_ℕ (measured -ℤ projected s)
unfolding apply_measurement
level_between s measured =
    let r = measured -ℤ projected s in
    let level = projected s +ℤ (r >>ℤ level_shift s) in
    omega (
      int_laws,
      shift_between r (level_shift s),
      parts_apart r,
      parts_apart (measured -ℤ level),
      parts_apart (level -ℤ projected s),
    )
