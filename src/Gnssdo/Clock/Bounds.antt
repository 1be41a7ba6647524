-- ===== src/Gnssdo/Clock/Bounds.antt =====
-- The range of the estimate: what an interval keeps of it.
use pico_gnss.Base.{ℕ, ◌+◌, ◌*◌, ◌^◌, ◌≤◌, ◌<◌, ◌≡◌, ◌⊎◌, arith, inl, inr}
use pico_gnss.Base.Int.{
  ℤ, pos, pos_part, abs_ℕ, ◌+ℤ◌, ◌-ℤ◌, ◌*ℤ◌, ◌≤ℤ◌, int_laws, parts_apart, *ℤ_parts,
}
use pico_gnss.Base.Int.Scale.{◌×ℤ◌, clamp_about_bounds, abs-add}
use pico_gnss.Gnssdo.Clock.{
  DisciplinedClock, DisciplinedClockConfig, is_locked, update_freq, apply_measurement, next_slope,
  projected, deviation,
}
use pico_gnss.Gnssdo.Clock.Gates.{Fits, IsAdmitted, residual_gate, level_between, update_freq_cases}
use native.Mathlib.Nat.{mul-le-mul_right}

-- The widest residual gate.
unfoldable pub widest_gate : DisciplinedClockConfig → ℕ
widest_gate c = c.residual_gate_ns * 1000 + c.slope_max_mppb * pos_part c.residual_slope_widen

-- How far the level gets: a measurement, the gate, and one slope.
unfoldable pub level_bound : DisciplinedClockConfig → ℕ
level_bound c = c.sane_dev_ns * 1000 + widest_gate c + c.slope_max_mppb

-- Before the lock there is no slope.
pub record IsBounded (s : DisciplinedClock) : Type 0 where
  pub fits : Fits s.config
  pub level_le : abs_ℕ s.freq_mppb ≤ level_bound s.config
  pub slope_le : abs_ℕ s.freq_slope_mppb ≤ s.config.slope_max_mppb
  pub slope_waits : (s.config.lock_samples ≤ s.samples) ⊎ (s.freq_slope_mppb ≡ pos 0)
  pub quarantine_le : s.quarantine ≤ s.config.quarantine_samples

next_slope_le :
    (s : DisciplinedClock) (resid : ℤ)
    → abs_ℕ s.freq_slope_mppb ≤ s.config.slope_max_mppb
    → abs_ℕ (next_slope s resid) ≤ s.config.slope_max_mppb
unfolding next_slope
next_slope_le s resid h = grind (arith, clamp_about_bounds)

next_slope_waits :
    (s : DisciplinedClock) (resid : ℤ)
    → (s.config.lock_samples ≤ s.samples) ⊎ (s.freq_slope_mppb ≡ pos 0)
    → (s.config.lock_samples ≤ s.samples) ⊎ (next_slope s resid ≡ pos 0)
unfolding next_slope is_locked
next_slope_waits s resid h = ground arith

×ℤ-pos_part : (n : ℕ) (a : ℤ) → pos_part (pos n ×ℤ a) ≤ n * pos_part a
unfolding ◌×ℤ◌
×ℤ-pos_part n a = ground arith

residual_gate_le :
    (s : DisciplinedClock)
    → abs_ℕ s.freq_slope_mppb ≤ s.config.slope_max_mppb
    → pos_part (residual_gate s) ≤ widest_gate s.config
unfolding widest_gate
residual_gate_le s h =
    let widened = pos (abs_ℕ s.freq_slope_mppb) ×ℤ s.config.residual_slope_widen in
    omega (
      int_laws,
      ×ℤ-pos_part (abs_ℕ s.freq_slope_mppb) s.config.residual_slope_widen,
      mul-le-mul_right (pos_part s.config.residual_slope_widen) h,
      parts_apart (pos s.config.residual_gate_ns *ℤ 1000 +ℤ widened),
    )

between_le :
    (m p x : ℤ) (b : ℕ)
    → abs_ℕ (m -ℤ x) + abs_ℕ (x -ℤ p) ≡ abs_ℕ (m -ℤ p)
    → abs_ℕ m ≤ b
    → abs_ℕ p ≤ b
    → abs_ℕ x ≤ b
between_le m p x b e hm hp = omega (
  int_laws,
  e,
  hm,
  hp,
  parts_apart x,
  parts_apart (m -ℤ x),
  parts_apart (x -ℤ p),
  parts_apart (m -ℤ p),
)

near_level :
    (m level gate : ℤ) → pos (abs_ℕ (m -ℤ level)) ≤ℤ gate → abs_ℕ level ≤ abs_ℕ m + pos_part gate
near_level m level gate h = omega (int_laws, h, parts_apart level)

measured_le :
    (c : DisciplinedClockConfig) (interval_ns : ℤ)
    → abs_ℕ (deviation interval_ns) < c.sane_dev_ns
    → abs_ℕ (deviation interval_ns *ℤ 1000) ≤ level_bound c
unfolding level_bound
measured_le c interval_ns h = omega (arith, h, *ℤ_parts (deviation interval_ns) 1000)

-- The level ahead is in range for a measurement that is admitted behind the first one.
projected_le :
    (s : DisciplinedClock) (interval_ns : ℤ)
    → IsBounded s
    → IsAdmitted s interval_ns
    → 0 < s.samples
    → abs_ℕ (projected s) ≤ level_bound s.config
unfolding projected level_bound
projected_le s interval_ns h admitted some_sample =
    let measured = deviation interval_ns *ℤ 1000 in
    ground (
      arith,
      h.level_le,
      h.slope_le,
      h.slope_waits,
      admitted,
      *ℤ_parts (deviation interval_ns) 1000,
      abs-add s.freq_mppb s.freq_slope_mppb,
      near_level measured s.freq_mppb (residual_gate s),
      residual_gate_le s h.slope_le,
    )

apply_measurement-IsBounded :
    (s : DisciplinedClock) (interval_ns : ℤ)
    → s.samples + 1 < 2 ^ 32
    → IsBounded s
    → IsAdmitted s interval_ns
    → 0 < s.samples
    → IsBounded (apply_measurement s (deviation interval_ns *ℤ 1000))
unfolding apply_measurement
apply_measurement-IsBounded s interval_ns few h admitted some_sample =
    let measured = deviation interval_ns *ℤ 1000 in
    let resid = measured -ℤ projected s in
    record {
      fits = h.fits;
      level_le =
          between_le measured (projected s) _ _ (level_between s measured)
            (measured_le s.config interval_ns admitted.0)
            (projected_le s interval_ns h admitted some_sample);
      slope_le = next_slope_le s resid h.slope_le;
      slope_waits = ground (arith, few, next_slope_waits s resid h.slope_waits);
      quarantine_le = h.quarantine_le;
    }

pub pulse-IsBounded :
    (s : DisciplinedClock) (interval_ns : ℤ)
    → s.samples + 1 < 2 ^ 32
    → IsBounded s
    → IsBounded (update_freq s interval_ns).0
pulse-IsBounded s interval_ns few h = elim (update_freq_cases s interval_ns h.fits) [
  | inl (q, le, same) ↦ rw same (record {
    fits = h.fits;
    level_le = h.level_le;
    slope_le = h.slope_le;
    slope_waits = h.slope_waits;
    quarantine_le = omega (arith, le, h.quarantine_le);
  })
  | inr (inl (admitted, zero_samples, one)) ↦ rw one (record {
    fits = h.fits;
    level_le = measured_le s.config interval_ns admitted.0;
    slope_le = h.slope_le;
    slope_waits = ground (arith, h.slope_waits, zero_samples);
    quarantine_le = h.quarantine_le;
  })
  | inr (inr (admitted, some_sample, more)) ↦
      rw more (apply_measurement-IsBounded s interval_ns few h admitted some_sample)
]
