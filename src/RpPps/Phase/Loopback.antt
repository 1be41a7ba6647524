-- ===== src/RpPps/Phase/Loopback.antt =====
-- The phase in ticks of the capture counters, and their calibration.
use native.Mathlib.Nat.{mod-eq_of_lt}
use pico_gnss.Base.{ℕ, suc, ◌*◌, ◌/◌, ◌<◌, ◌≤◌, ◌≡◌, refl, arith}
use pico_gnss.Base.Int.{
  ℤ, pos, negsuc, abs_ℕ, ◌/ℤ◌, ◌%ℤ◌, trunc_parts, +ℤ_parts, -ℤ_parts, parts_apart,
}
use pico_gnss.RpPps.Phase.{loopback_raw_lag_ticks, loopback_phase_ticks}

pub loopback_phase_ticks_range :
    (reference_capture output_capture offset_ticks m : ℕ)
    → 0 < m
    → abs_ℕ (loopback_phase_ticks reference_capture output_capture offset_ticks m) ≤ m / 2
unfolding loopback_phase_ticks loopback_raw_lag_ticks ◌/ℤ◌
loopback_phase_ticks_range r o k m h =
    let elapsed = loopback_raw_lag_ticks r o k in
    let d = elapsed %ℤ m in
    ground (arith, trunc_parts elapsed m h, -ℤ_parts d (pos m), +ℤ_parts d (pos m), parts_apart d)

small_rem : (a : ℤ) (m : ℕ) → 2 * abs_ℕ a < m → a %ℤ m ≡ a
unfolding ◌%ℤ◌
small_rem (pos n) m h = rw (mod-eq_of_lt {n = n} {m = m} (omega arith)) refl
small_rem (negsuc n) m h = rw (mod-eq_of_lt {n = suc n} {m = m} (omega arith)) (ground arith)

-- The fold is the identity for a lag that is less than half a second, as of a pair of edges of the
-- same second.
pub loopback_phase_ticks_small :
    (reference_capture output_capture offset_ticks m : ℕ)
    → 2 * abs_ℕ (loopback_raw_lag_ticks reference_capture output_capture offset_ticks) < m
    → loopback_phase_ticks reference_capture output_capture offset_ticks m
      ≡ loopback_raw_lag_ticks reference_capture output_capture offset_ticks
unfolding loopback_phase_ticks ◌/ℤ◌ ◌%ℤ◌ loopback_raw_lag_ticks
loopback_phase_ticks_small r o k m h =
    rw (small_rem (loopback_raw_lag_ticks r o k) m h) (ground arith)
