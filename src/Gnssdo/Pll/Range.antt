-- ===== src/Gnssdo/Pll/Range.antt =====
-- The integral and the derivative in 64 bits, and the range in which they are those of ℤ.
use pico_gnss.Base.{
  ℕ, zero, suc, ◌+◌, ◌*◌, ◌^◌, ◌≤◌, arith, ◌≡◌, min, ◌&&◌, if◌then◌else◌, Bool, List, [], ◌∷◌, All,
  take,
}
use pico_gnss.Base.Int.{ℤ, pos, ltb_ℤ, abs_ℕ, to_i64, ◌-ℤ◌, ◌*ℤ◌, ◌/ℤ◌, *ℤ_parts}
use pico_gnss.Base.Int.Scale.{max_one, clamp_about, to_i64_lem, ◌<<ℤ◌, abs-add, abs-sub, abs-div}
use pico_gnss.Gnssdo.Pll.{
  PhaseLockLoop, update, predicted, smith_in_flight, total, in_flight, smith_max, integrate, d_term,
  use_i, use_d, is_locked,
}
use pico_gnss.Gnssdo.Control.{corr_clamp_ns}
use pico_gnss.Gnssdo.Pll.Bounds.{IsStable, two_clamps}

-- The sum of the corrections in flight.
total_le :
    (n : ℕ) (xs : List ℤ)
    → All (λ x. abs_ℕ x ≤ two_clamps) xs
    → abs_ℕ (total (take n xs)) ≤ n * two_clamps
unfolding total
total_le zero xs h = omega arith
total_le (suc n) [] h = omega arith
total_le (suc n) (x ∷ xs) h = omega (arith, h.0, abs-add x (total (take n xs)), total_le n xs h.1)

in_flight_le : (edges : ℕ) → in_flight edges ≤ smith_max
in_flight_le edges = ground arith

predicted_le :
    (s : PhaseLockLoop) (err : ℤ)
    → IsStable s
    → abs_ℕ (predicted s err) ≤ abs_ℕ err + smith_max * two_clamps
unfolding predicted smith_in_flight
predicted_le s err h =
    let n = in_flight s.config.smith_edges in
    ground (
      arith,
      in_flight_le s.config.smith_edges,
      total_le n s.pd_hist h.hist_le,
      abs-sub err (total (take n s.pd_hist)),
    )

last_pred_le :
    (s : PhaseLockLoop) (err : ℤ) (valid : Bool)
    → IsStable s
    → abs_ℕ err ≤ 2 ^ 52
    → abs_ℕ s.last_pred ≤ 2 ^ 53
    → abs_ℕ (update s err valid).0.last_pred ≤ 2 ^ 53
unfolding update
last_pred_le s err valid h e l = ground (arith, predicted_le s err h)

-- The two terms with the wrap-around of each operation on `i64`.
unfoldable pub wrapped_trim : PhaseLockLoop → ℤ → ℤ → ℤ
wrapped_trim self ctrl pred =
    let calm = ltb_ℤ (pos (abs_ℕ pred)) self.config.calm_ns in
    let slow = self.config.i_den <<ℤ min self.config.i_den_disturbed_shift 20 in
    let i_den_eff = if calm then self.config.i_den else slow in
    if use_i self.config.mode
    then if ltb_ℤ (pos (abs_ℕ ctrl)) self.config.i_enable_ns
      then clamp_about (to_i64 (self.trim_mppb -ℤ to_i64 (pred *ℤ 1000) /ℤ max_one i_den_eff))
          self.config.trim_max_mppb
      else self.trim_mppb
    else pos 0

unfoldable pub wrapped_damping : PhaseLockLoop → ℤ → ℤ
wrapped_damping self pred =
    if use_d self.config.mode && is_locked self
    then clamp_about (to_i64 (pred -ℤ self.last_pred) /ℤ max_one self.config.d_den) corr_clamp_ns
    else pos 0

moved_fits :
    (s : PhaseLockLoop) (err divisor : ℤ)
    → IsStable s
    → s.config.trim_max_mppb ≤ 2 ^ 62
    → abs_ℕ err ≤ 2 ^ 52
    → to_i64 (s.trim_mppb -ℤ to_i64 (predicted s err *ℤ 1000) /ℤ max_one divisor)
      ≡ s.trim_mppb -ℤ (predicted s err *ℤ 1000) /ℤ max_one divisor
moved_fits s err divisor h m e =
    let pred = predicted s err in
    let scaled =
      to_i64_lem (pred *ℤ 1000) (omega (arith, predicted_le s err h, *ℤ_parts pred 1000)) in
    let moved = (pred *ℤ 1000) /ℤ max_one divisor in
    rw scaled (
      to_i64_lem (s.trim_mppb -ℤ moved) (
        omega (
          arith,
          h.trim_le,
          predicted_le s err h,
          *ℤ_parts pred 1000,
          abs-div (pred *ℤ 1000) (max_one divisor),
          abs-sub s.trim_mppb moved,
        )))

integrate-eq :
    (s : PhaseLockLoop) (err : ℤ)
    → IsStable s
    → s.config.trim_max_mppb ≤ 2 ^ 62
    → abs_ℕ err ≤ 2 ^ 52
    → integrate s err (predicted s err) ≡ wrapped_trim s err (predicted s err)
unfolding integrate wrapped_trim
integrate-eq s err h m e =
    let pred = predicted s err in
    let i_den_eff =
      if ltb_ℤ (pos (abs_ℕ pred)) s.config.calm_ns
      then s.config.i_den
      else s.config.i_den <<ℤ min s.config.i_den_disturbed_shift 20 in
    rw (moved_fits s err i_den_eff h m e)

d_term-eq :
    (s : PhaseLockLoop) (err : ℤ)
    → IsStable s
    → abs_ℕ err ≤ 2 ^ 52
    → abs_ℕ s.last_pred ≤ 2 ^ 53
    → d_term s (predicted s err) ≡ wrapped_damping s (predicted s err)
unfolding d_term wrapped_damping
d_term-eq s err h e l =
    let pred = predicted s err in
    let moved =
      to_i64_lem (pred -ℤ s.last_pred)
        (omega (arith, predicted_le s err h, abs-sub pred s.last_pred)) in
    rw moved

-- In a stable state with a trim clamp of at most 2^62, for an error of at most 2^52 ns and a last
-- prediction of at most 2^53 ns, `integrate` and `d_term` give what they give with each operation
-- wrapped to 64 bits, so that the wrap-around changes nothing; the prediction is at most 2^53 ns,
-- and so is the last prediction behind the edge.
pub edge_fits :
    (s : PhaseLockLoop) (err : ℤ) (valid : Bool)
    → IsStable s
    → s.config.trim_max_mppb ≤ 2 ^ 62
    → abs_ℕ err ≤ 2 ^ 52
    → abs_ℕ s.last_pred ≤ 2 ^ 53
    → (integrate s err (predicted s err) ≡ wrapped_trim s err (predicted s err))
      × (d_term s (predicted s err) ≡ wrapped_damping s (predicted s err))
      × (abs_ℕ (predicted s err) ≤ 2 ^ 53)
      × (abs_ℕ (update s err valid).0.last_pred ≤ 2 ^ 53)
edge_fits s err valid h m e l = (
  integrate-eq s err h m e,
  d_term-eq s err h e l,
  omega (arith, predicted_le s err h),
  last_pred_le s err valid h e l,
)
