-- ===== src/Gnssdo/AlphaBeta/Laws.antt =====
-- The observer of phase and drift meets the laws of a controller.
use pico_gnss.Base.{◌+◌, ◌^◌, ◌≤◌, ◌<◌, ◌≡◌, arith, min, Bool, true}
use pico_gnss.Base.Int.{ℤ, abs_ℕ, neg_ℤ, ◌≤ℤ◌}
use pico_gnss.Base.Int.Scale.{clamp_about_bounds}
use pico_gnss.Gnssdo.Control.{ControlInput, corr_clamp_ns}
use pico_gnss.Gnssdo.Control.Runs.{IsWithin, Limits, IsCalm, Laws}
use pico_gnss.Gnssdo.Pll.Bounds.{count_lock-le}
use pico_gnss.Gnssdo.Pll.Laws.{count_lock_calm}
use pico_gnss.Gnssdo.AlphaBeta.{
  AlphaBetaBoost, AlphaBetaBoostConfig, controller, step, is_locked, is_outlier, freq_trim_mppb,
  next_trim, next_pcorr,
}

-- The count of the lock is in its limit, and the settings are such that the lock is reached.
pub record IsSane (s : AlphaBetaBoost) : Type 0 where
  pub lock_le : s.lock_cnt ≤ s.cfg.lock_hold
  pub window : s.cfg.lock_ns ≤ℤ s.cfg.outlier_ns
  pub hold_fits : s.cfg.lock_hold + 1 < 2 ^ 32

abbrev pub limits : AlphaBetaBoost → Limits
limits s = record {
  trim_max = s.cfg.trim_max_mppb;
  lock_ns = s.cfg.lock_ns;
  lock_hold = s.cfg.lock_hold;
  outlier_max = s.cfg.outlier_max;
}

next_trim_le : (c : AlphaBetaBoostConfig) (drift : ℤ) → abs_ℕ (next_trim c drift) ≤ c.trim_max_mppb
unfolding next_trim
next_trim_le c drift = clamp_about_bounds (neg_ℤ drift) c.trim_max_mppb

freq_trim_le : (s : AlphaBetaBoost) → abs_ℕ (freq_trim_mppb s) ≤ s.cfg.trim_max_mppb
unfolding freq_trim_mppb
freq_trim_le s = clamp_about_bounds (neg_ℤ s.drift_hat_mppb) s.cfg.trim_max_mppb

next_pcorr_le :
    (c : AlphaBetaBoostConfig) (phase : ℤ) (boosting : Bool)
    → abs_ℕ (next_pcorr c phase boosting) ≤ corr_clamp_ns
unfolding next_pcorr
next_pcorr_le c phase boosting = grind (arith, clamp_about_bounds)

pub step-IsSane : (s : AlphaBetaBoost) (i : ControlInput) → IsSane s → IsSane (step s i).0
unfolding step
step-IsSane s i h = record {
  lock_le =
      ground (arith, h.lock_le, count_lock-le s.cfg.lock_ns i.err_ns s.cfg.lock_hold s.lock_cnt);
  window = ground (arith, h.window);
  hold_fits = ground (arith, h.hold_fits);
}

pub step_limits : (s : AlphaBetaBoost) (i : ControlInput) → limits (step s i).0 ≡ limits s
unfolding step
step_limits s i = ground arith

pub step-IsWithin :
    (s : AlphaBetaBoost) (i : ControlInput) → IsSane s → IsWithin (limits s).trim_max (step s i).1
unfolding step
step-IsWithin s i h = grind (arith, next_trim_le, next_pcorr_le, freq_trim_le)

pub step_rejected :
    (s : AlphaBetaBoost) (i : ControlInput)
    → (step s i).1.rejected ≡ true
    → ((step s i).0.reject_cnt ≡ s.reject_cnt + 1) × (s.reject_cnt < s.cfg.outlier_max)
unfolding step is_outlier
step_rejected s i h = ground arith

pub step_calm :
    (s : AlphaBetaBoost) (i : ControlInput)
    → IsSane s
    → IsCalm (limits s) i
    → min (s.lock_cnt + 1) s.cfg.lock_hold ≤ (step s i).0.lock_cnt
unfolding step is_outlier
step_calm s i h calm = ground (
  arith,
  calm,
  h.lock_le,
  h.window,
  h.hold_fits,
  count_lock_calm s.cfg.lock_ns i.err_ns s.cfg.lock_hold s.lock_cnt,
)

pub locked_lem : (s : AlphaBetaBoost) → IsSane s → s.cfg.lock_hold ≤ s.lock_cnt → is_locked s ≡ true
unfolding is_locked
locked_lem s h enough = ground arith

abbrev pub laws : Laws controller
laws = record {
  IsStable = IsSane;
  limits = limits;
  lock_cnt = λ s. s.lock_cnt;
  reject_cnt = λ s. s.reject_cnt;
  step-IsStable = step-IsSane;
  step_limits = step_limits;
  step-IsWithin = step-IsWithin;
  step_rejected = step_rejected;
  step_calm = step_calm;
  locked_lem = locked_lem;
}
