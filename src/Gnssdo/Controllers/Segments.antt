-- ===== src/Gnssdo/Controllers/Segments.antt =====
-- The switch to another loop: what `start_segment` and the first edge behind it give.
use pico_gnss.Base.{
  ℕ, zero, suc, ◌≤◌, ◌≡◌, refl, arith, Bool, true, false, replicate, take, if◌then◌else◌, min,
}
use pico_gnss.Base.Int.{
  ℤ, pos, negsuc, pos_part, neg_part, abs_ℕ, ◌≤ℤ◌, ◌+ℤ◌, ◌-ℤ◌, ◌*ℤ◌, ◌/ℤ◌, neg_ℤ,
}
use pico_gnss.Base.Int.Scale.{◌<<ℤ◌, clamp_about, clamp_about_lem, max_one, abs-div}
use pico_gnss.Base.Int.{int_laws}
use pico_gnss.Gnssdo.Control.{ControlInput, corr_clamp_ns}
use pico_gnss.Gnssdo.Pll
use pico_gnss.Gnssdo.Pll.{PhaseLockLoop, use_i, smith_max, total}
use pico_gnss.Gnssdo.IntegralRework as Rework
use pico_gnss.Gnssdo.IntegralRework.{IntegralRework}
use pico_gnss.Gnssdo.AlphaBeta
use pico_gnss.Gnssdo.AlphaBeta.{AlphaBetaBoost}
use pico_gnss.Gnssdo.Controllers.{
  Controller, pll, integ_rework, ab_boost, open_loop, step, start_segment,
}

-- A trustworthy edge without error.
abbrev pub no_error : ControlInput
no_error = record { err_ns = pos 0; valid = true }

zero-div : (k : ℕ) → pos 0 /ℤ k ≡ pos 0
zero-div k = omega (int_laws, abs-div (pos 0) k)

zero-clamp : (b : ℕ) → clamp_about (pos 0) b ≡ pos 0
zero-clamp b = clamp_about_lem (pos 0) b (omega arith)

zero_times : pos 0 *ℤ 1000 ≡ pos 0
unfolding ◌*ℤ◌
zero_times = refl

no_change : (a : ℤ) → a -ℤ pos 0 ≡ a
no_change a = omega int_laws

self-sub : (a : ℤ) → a -ℤ a ≡ pos 0
self-sub a = omega int_laws

neg_parts : (a : ℤ) → (pos_part (neg_ℤ a) ≡ neg_part a) × (neg_part (neg_ℤ a) ≡ pos_part a)
neg_parts (pos n) = ground arith
neg_parts (negsuc n) = ground arith

neg-add : (a : ℤ) → neg_ℤ a +ℤ a ≡ pos 0
neg-add a = omega (int_laws, neg_parts a)

neg-neg : (a : ℤ) → neg_ℤ (neg_ℤ a) ≡ a
neg-neg a = omega (int_laws, neg_parts a, neg_parts (neg_ℤ a))

add_nothing : (a : ℤ) → a +ℤ pos 0 ≡ a
add_nothing a = omega int_laws

zero_sum : pos 0 +ℤ pos 0 ≡ pos 0
zero_sum = omega int_laws

total_zeros : (n m : ℕ) → total (take n (replicate m (pos 0))) ≡ pos 0
unfolding total
total_zeros zero m = refl
total_zeros (suc n) zero = refl
total_zeros (suc n) (suc m) = rw (total_zeros n m, zero_sum)

-- What the loop keeps of the trim that it is seeded with: a loop without integral term drops it.
abbrev pub kept : Controller → ℤ → ℤ
kept (pll c) trim = if use_i c.config.mode then trim else pos 0
kept (integ_rework c) trim = trim
kept (ab_boost c) trim = trim
kept (open_loop c) trim = trim

-- The seed is in the range of the trim, and no edge without error is a spike.
abbrev pub CanHold : Controller → ℤ → Type 0
CanHold (pll c) trim = (abs_ℕ trim ≤ c.config.trim_max_mppb) × (pos 0 ≤ℤ c.config.outlier_ns)
CanHold (integ_rework c) trim = (abs_ℕ trim ≤ c.cfg.trim_max_mppb) × (pos 0 ≤ℤ c.cfg.outlier_ns)
CanHold (ab_boost c) trim = (abs_ℕ trim ≤ c.cfg.trim_max_mppb) × (pos 0 ≤ℤ c.cfg.outlier_ns)
CanHold (open_loop c) trim = Unit

-- A term for no phase.
zero_term : (k b : ℕ) → clamp_about (pos 0 /ℤ k) b ≡ pos 0
zero_term k b = rw (zero-div k, zero-clamp b)

module _ (c : PhaseLockLoop) (trim : ℤ) where
  abbrev seeded : PhaseLockLoop
  seeded = Pll.start_segment c (record { residual_trim_mppb = trim })

  seeded-predicted : Pll.predicted seeded (pos 0) ≡ pos 0
  unfolding Pll.predicted Pll.start_segment Pll.smith_in_flight
  seeded-predicted =
      ground (arith, total_zeros (Pll.in_flight c.config.smith_edges) smith_max, no_change (pos 0))

  seeded_accepts : pos 0 ≤ℤ c.config.outlier_ns → Pll.is_outlier seeded (pos 0) ≡ false
  unfolding Pll.is_outlier Pll.start_segment
  seeded_accepts h = ground arith

  seeded_trim :
      abs_ℕ trim ≤ c.config.trim_max_mppb → Pll.integrate seeded (pos 0) (pos 0) ≡ kept (pll c) trim
  unfolding Pll.integrate Pll.start_segment
  seeded_trim h =
      let c' = c.config in
      ground (
        arith,
        zero_times,
        zero-div (max_one c'.i_den),
        zero-div (max_one (c'.i_den <<ℤ min c'.i_den_disturbed_shift 20)),
        no_change trim,
        clamp_about_lem trim c'.trim_max_mppb h,
      )

  seeded_p : Pll.p_term c.config (pos 0) ≡ pos 0
  unfolding Pll.p_term
  seeded_p = ground (arith, zero_term (max_one (Pll.kp_inv c.config)) corr_clamp_ns)

  seeded_d : Pll.d_term seeded (pos 0) ≡ pos 0
  unfolding Pll.d_term Pll.start_segment
  seeded_d = ground (arith, no_change (pos 0), zero_term (max_one c.config.d_den) corr_clamp_ns)

  pll_first :
      CanHold (pll c) trim
      → ((Pll.step seeded no_error).1.trim_mppb ≡ kept (pll c) trim)
        × ((Pll.step seeded no_error).1.pcorr_ns ≡ pos 0)
        × ((Pll.step seeded no_error).1.applied ≡ true)
  unfolding Pll.step Pll.update Pll.start_segment
  pll_first h =
      ground
        (arith, seeded_accepts h.1, seeded-predicted, seeded_p, seeded_d, seeded_trim h.0, zero_sum)

module _ (c : IntegralRework) (trim : ℤ) where
  abbrev fresh : IntegralRework
  fresh = Rework.start_segment c (record { residual_trim_mppb = trim })

  fresh-wanted : Rework.wanted fresh (pos 0) ≡ trim
  unfolding Rework.wanted Rework.start_segment
  fresh-wanted =
      rw (zero-clamp c.cfg.e_i_ns, zero_times, zero-div (max_one c.cfg.i_den)) (no_change trim)

  fresh_trim : abs_ℕ trim ≤ c.cfg.trim_max_mppb → Rework.integrate fresh (pos 0) ≡ trim
  unfolding Rework.integrate Rework.start_segment
  fresh_trim h = ground (
    arith,
    fresh-wanted,
    clamp_about_lem trim c.cfg.trim_max_mppb h,
    self-sub trim,
    zero-div (max_one c.cfg.kbc_inv),
    no_change trim,
  )

  fresh_p : Rework.p_term c.cfg (pos 0) ≡ pos 0
  unfolding Rework.p_term
  fresh_p = zero_term (max_one c.cfg.kp_inv) corr_clamp_ns

  fresh_d : Rework.d_term fresh (pos 0) ≡ pos 0
  unfolding Rework.d_term Rework.start_segment
  fresh_d = ground (arith, no_change (pos 0), zero_term (max_one c.cfg.d_den) corr_clamp_ns)

  rework_first :
      CanHold (integ_rework c) trim
      → ((Rework.step fresh no_error).1.trim_mppb ≡ trim)
        × ((Rework.step fresh no_error).1.pcorr_ns ≡ pos 0)
        × ((Rework.step fresh no_error).1.applied ≡ true)
  unfolding Rework.step Rework.start_segment Rework.is_outlier
  rework_first h = ground (arith, no_change (pos 0), fresh_trim h.0, fresh_p, fresh_d, zero_sum)

module _ (c : AlphaBetaBoost) (trim : ℤ) where
  abbrev blank : AlphaBetaBoost
  blank = AlphaBeta.start_segment c (record { residual_trim_mppb = trim })

  blank_pred : AlphaBeta.phase_pred blank ≡ pos 0
  unfolding AlphaBeta.phase_pred AlphaBeta.start_segment
  blank_pred = rw (neg-add trim, zero-div 1000) (omega int_laws)

  blank_drift :
      (boosting : Bool)
      → abs_ℕ trim ≤ c.cfg.trim_max_mppb
      → AlphaBeta.next_drift blank (pos 0) boosting ≡ neg_ℤ trim
  unfolding AlphaBeta.next_drift AlphaBeta.start_segment
  blank_drift boosting h =
      let drift = neg_ℤ trim in
      rw (zero_times, zero-div (AlphaBeta.beta_inv c.cfg boosting), add_nothing drift)
        (clamp_about_lem drift c.cfg.trim_max_mppb (omega (arith, h, neg_parts trim)))

  blank_trim : abs_ℕ trim ≤ c.cfg.trim_max_mppb → AlphaBeta.next_trim c.cfg (neg_ℤ trim) ≡ trim
  unfolding AlphaBeta.next_trim
  blank_trim h = rw (neg-neg trim) (clamp_about_lem trim c.cfg.trim_max_mppb h)

  blank_pcorr : (boosting : Bool) → AlphaBeta.next_pcorr c.cfg (pos 0) boosting ≡ pos 0
  unfolding AlphaBeta.next_pcorr
  blank_pcorr boosting = zero_term (AlphaBeta.pgain_inv c.cfg boosting) corr_clamp_ns

  blank_accepts : pos 0 ≤ℤ c.cfg.outlier_ns → AlphaBeta.is_outlier blank (pos 0) ≡ false
  unfolding AlphaBeta.is_outlier AlphaBeta.start_segment
  blank_accepts h = ground arith

  -- Whether the first edge starts a boost.
  abbrev boosts : Bool
  boosts =
      (AlphaBeta.next_boost c.cfg AlphaBeta.no_boost (pos 0) (pos 0)
        (AlphaBeta.accepted_disturbance blank (pos 0))).boosting

  boost_first :
      CanHold (ab_boost c) trim
      → ((AlphaBeta.step blank no_error).1.trim_mppb ≡ trim)
        × ((AlphaBeta.step blank no_error).1.pcorr_ns ≡ pos 0)
        × ((AlphaBeta.step blank no_error).1.applied ≡ true)
  unfolding AlphaBeta.step AlphaBeta.start_segment
  boost_first h = ground (
    arith,
    blank_accepts h.1,
    blank_pred,
    no_change (pos 0),
    zero_sum,
    zero-div (AlphaBeta.alpha_inv c.cfg boosts),
    blank_drift boosts h.0,
    blank_trim h.0,
    blank_pcorr boosts,
  )

-- Where a segment starts with a residual trim in the range of the loop, which has an outlier
-- threshold of zero or more, the first valid edge without error is applied with no phase
-- correction, and the trim is the seed, or zero in a phase-locked loop without integral term.
pub first_edge :
    (c : Controller) (trim : ℤ)
    → CanHold c trim
    → ((step (start_segment c (record { residual_trim_mppb = trim })) no_error).1.trim_mppb
        ≡ kept c trim)
      × ((step (start_segment c (record { residual_trim_mppb = trim })) no_error).1.pcorr_ns
          ≡ pos 0)
      × ((step (start_segment c (record { residual_trim_mppb = trim })) no_error).1.applied ≡ true)
unfolding step start_segment
first_edge (pll c) trim h = pll_first c trim h
first_edge (integ_rework c) trim h = rework_first c trim h
first_edge (ab_boost c) trim h = boost_first c trim h
first_edge (open_loop c) trim h = (refl, refl, refl)
