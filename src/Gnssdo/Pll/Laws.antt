-- ===== src/Gnssdo/Pll/Laws.antt =====
-- The phase-locked loop meets the laws of a controller.
use pico_gnss.Base.{ℕ, ◌+◌, ◌^◌, ◌≤◌, ◌<◌, ◌≡◌, arith, min, Bool, true}
use pico_gnss.Base.Int.{ℤ, pos, abs_ℕ, ltb_ℤ, ◌≤ℤ◌}
use pico_gnss.Gnssdo.Control.{ControlInput}
use pico_gnss.Gnssdo.Control.Runs.{IsWithin, Limits, IsCalm, Laws}
use pico_gnss.Gnssdo.Pll.{
  PhaseLockLoop, controller, update, step, is_locked, is_outlier, count_lock,
}
use pico_gnss.Gnssdo.Pll.Bounds.{
  IsStable, update-IsStable, update_config, update_trim_le, update_corr_le, update_held, outlier_lt,
}

-- The settings under which the lock is reached: the lock window is within the outlier threshold,
-- and the count of the lock is a `u32`.
pub record IsSane (s : PhaseLockLoop) : Type 0 where
  pub stable : IsStable s
  pub window : s.config.lock_ns ≤ℤ s.config.outlier_ns
  pub hold_fits : s.config.lock_hold + 1 < 2 ^ 32

abbrev pub limits : PhaseLockLoop → Limits
limits s = record {
  trim_max = s.config.trim_max_mppb;
  lock_ns = s.config.lock_ns;
  lock_hold = s.config.lock_hold;
  outlier_max = s.config.outlier_max;
}

-- An edge within the lock window raises the count of the lock.
pub count_lock_calm :
    (lock_ns err : ℤ) (hold n : ℕ)
    → hold + 1 < 2 ^ 32
    → n ≤ hold
    → ltb_ℤ (pos (abs_ℕ err)) lock_ns ≡ true
    → count_lock lock_ns hold n err ≡ min (n + 1) hold
unfolding count_lock
count_lock_calm lock_ns err hold n h le calm = ground arith

update_calm :
    (s : PhaseLockLoop) (err : ℤ)
    → IsSane s
    → ltb_ℤ (pos (abs_ℕ err)) s.config.lock_ns ≡ true
    → (update s err true).0.lock_cnt ≡ min (s.lock_cnt + 1) s.config.lock_hold
unfolding update is_outlier
update_calm s err h calm = ground (
  arith,
  h.stable.lock_le,
  h.window,
  h.hold_fits,
  count_lock_calm s.config.lock_ns err s.config.lock_hold s.lock_cnt,
)

update_rejected :
    (s : PhaseLockLoop) (err : ℤ) (valid : Bool)
    → (update s err valid).1.rejected_outlier ≡ true
    → ((update s err valid).0.reject_cnt ≡ s.reject_cnt + 1) × (s.reject_cnt < s.config.outlier_max)
unfolding update
update_rejected s err valid h = ground (arith, outlier_lt s err)

pub step-IsSane : (s : PhaseLockLoop) (i : ControlInput) → IsSane s → IsSane (step s i).0
unfolding step
step-IsSane s i h = record {
  stable = update-IsStable s i.err_ns i.valid h.stable;
  window = rw (update_config s i.err_ns i.valid) (h.window);
  hold_fits = rw (update_config s i.err_ns i.valid) (h.hold_fits);
}

pub step_limits : (s : PhaseLockLoop) (i : ControlInput) → limits (step s i).0 ≡ limits s
unfolding step
step_limits s i = rw (update_config s i.err_ns i.valid)

pub step-IsWithin :
    (s : PhaseLockLoop) (i : ControlInput) → IsSane s → IsWithin (limits s).trim_max (step s i).1
unfolding step
step-IsWithin s i h = (
  update_trim_le s i.err_ns i.valid h.stable,
  update_corr_le s i.err_ns i.valid,
  ground (arith, update_held s i.err_ns i.valid),
)

pub step_calm :
    (s : PhaseLockLoop) (i : ControlInput)
    → IsSane s
    → IsCalm (limits s) i
    → min (s.lock_cnt + 1) s.config.lock_hold ≤ (step s i).0.lock_cnt
unfolding step
step_calm s i h calm = rw (calm.0, update_calm s i.err_ns h calm.1) (omega arith)

pub locked_lem :
    (s : PhaseLockLoop) → IsSane s → s.config.lock_hold ≤ s.lock_cnt → is_locked s ≡ true
unfolding is_locked
locked_lem s h enough = ground arith

pub step_rejected :
    (s : PhaseLockLoop) (i : ControlInput)
    → (step s i).1.rejected ≡ true
    → ((step s i).0.reject_cnt ≡ s.reject_cnt + 1) × (s.reject_cnt < s.config.outlier_max)
unfolding step
step_rejected s i h = update_rejected s i.err_ns i.valid h

abbrev pub laws : Laws controller
laws = record {
  IsStable = IsSane;
  limits = limits;
  lock_cnt = λ s. s.lock_cnt;
  reject_cnt = λ s. s.reject_cnt;
  step-IsStable = step-IsSane;
  step_limits = step_limits;
  step-IsWithin = step-IsWithin;
  step_rejected = step_rejected;
  step_calm = step_calm;
  locked_lem = locked_lem;
}
