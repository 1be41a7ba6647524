-- ===== src/Gnssdo/IntegralRework/Laws.antt =====
-- The loop whose integrator always runs meets the laws of a controller.
use pico_gnss.Base.{ℕ, ◌+◌, ◌*◌, ◌^◌, ◌≤◌, ◌<◌, ◌≡◌, refl, arith, min, true}
use pico_gnss.Base.Int.{
  ℤ, pos, abs_ℕ, ◌+ℤ◌, ◌-ℤ◌, ◌*ℤ◌, ◌/ℤ◌, ◌≤ℤ◌, *ℤ_parts, int_laws, parts_apart,
}
use pico_gnss.Base.Int.Scale.{
  clamp_about, clamp_about_bounds, clamp_about_parts, max_one, abs-add, abs-sub, abs-div,
  div_parts_le,
}
use pico_gnss.Gnssdo.Control.{ControlInput, corr_clamp_ns}
use pico_gnss.Gnssdo.Control.Runs.{IsWithin, Limits, IsCalm, Laws}
use pico_gnss.Gnssdo.Pll.Bounds.{count_lock-le}
use pico_gnss.Gnssdo.Pll.Laws.{count_lock_calm}
use pico_gnss.Gnssdo.IntegralRework.{
  IntegralRework, IntegralReworkConfig, controller, step, is_locked, is_outlier, integrate, wanted,
  p_term, d_term,
}

-- The counts and the trim are in their limits, and the settings are such that an edge moves the
-- trim by no more than the width of its range, and that the lock is reached.
pub record IsSane (s : IntegralRework) : Type 0 where
  pub lock_le : s.lock_cnt ≤ s.cfg.lock_hold
  pub trim_le : abs_ℕ s.trim_mppb ≤ s.cfg.trim_max_mppb
  pub input_le : s.cfg.e_i_ns * 1000 ≤ 2 * s.cfg.trim_max_mppb
  pub window : s.cfg.lock_ns ≤ℤ s.cfg.outlier_ns
  pub hold_fits : s.cfg.lock_hold + 1 < 2 ^ 32

abbrev pub limits : IntegralRework → Limits
limits s = record {
  trim_max = s.cfg.trim_max_mppb;
  lock_ns = s.cfg.lock_ns;
  lock_hold = s.cfg.lock_hold;
  outlier_max = s.cfg.outlier_max;
}

-- What the clamp cut off is taken back in part, which stays in the range.
clamp_back :
    (want : ℤ) (m k : ℕ)
    → abs_ℕ want ≤ 3 * m
    → abs_ℕ (clamp_about want m -ℤ (want -ℤ clamp_about want m) /ℤ k) ≤ m
clamp_back want m k h =
    let c = clamp_about want m in
    omega (
      int_laws,
      h,
      clamp_about_parts want m,
      div_parts_le (want -ℤ c) k,
      parts_apart want,
      parts_apart (want -ℤ c),
      parts_apart (c -ℤ (want -ℤ c) /ℤ k),
    )

wanted_le :
    (s : IntegralRework) (pred : ℤ)
    → abs_ℕ s.trim_mppb ≤ s.cfg.trim_max_mppb
    → s.cfg.e_i_ns * 1000 ≤ 2 * s.cfg.trim_max_mppb
    → abs_ℕ (wanted s pred) ≤ 3 * s.cfg.trim_max_mppb
unfolding wanted
wanted_le s pred t e =
    let input = clamp_about pred s.cfg.e_i_ns in
    omega (
      arith,
      t,
      e,
      clamp_about_bounds pred s.cfg.e_i_ns,
      *ℤ_parts input 1000,
      abs-div (input *ℤ 1000) (max_one s.cfg.i_den),
      abs-sub s.trim_mppb ((input *ℤ 1000) /ℤ max_one s.cfg.i_den),
    )

integrate_le :
    (s : IntegralRework) (pred : ℤ)
    → abs_ℕ s.trim_mppb ≤ s.cfg.trim_max_mppb
    → s.cfg.e_i_ns * 1000 ≤ 2 * s.cfg.trim_max_mppb
    → abs_ℕ (integrate s pred) ≤ s.cfg.trim_max_mppb
unfolding integrate
integrate_le s pred t e = clamp_back (wanted s pred) _ _ (wanted_le s pred t e)

p_term_le : (c : IntegralReworkConfig) (pred : ℤ) → abs_ℕ (p_term c pred) ≤ corr_clamp_ns
unfolding p_term
p_term_le c pred = clamp_about_bounds (pred /ℤ max_one c.kp_inv) corr_clamp_ns

d_term_le : (s : IntegralRework) (pred : ℤ) → abs_ℕ (d_term s pred) ≤ corr_clamp_ns
unfolding d_term
d_term_le s pred = grind (arith, clamp_about_bounds)

no_terms : pos 0 +ℤ pos 0 ≡ pos 0
unfolding ◌+ℤ◌
no_terms = refl

pub step-IsSane : (s : IntegralRework) (i : ControlInput) → IsSane s → IsSane (step s i).0
unfolding step
step-IsSane s i h = record {
  lock_le =
      ground (arith, h.lock_le, count_lock-le s.cfg.lock_ns i.err_ns s.cfg.lock_hold s.lock_cnt);
  trim_le = ground (arith, h.trim_le, integrate_le s (i.err_ns -ℤ s.last_pd) h.trim_le h.input_le);
  input_le = ground (arith, h.input_le);
  window = ground (arith, h.window);
  hold_fits = ground (arith, h.hold_fits);
}

pub step_limits : (s : IntegralRework) (i : ControlInput) → limits (step s i).0 ≡ limits s
unfolding step
step_limits s i = ground arith

pub step-IsWithin :
    (s : IntegralRework) (i : ControlInput) → IsSane s → IsWithin (limits s).trim_max (step s i).1
unfolding step
step-IsWithin s i h =
    let pred = i.err_ns -ℤ s.last_pd in
    ground (
      arith,
      no_terms,
      h.trim_le,
      integrate_le s pred h.trim_le h.input_le,
      abs-add (p_term s.cfg pred) (d_term s pred),
      p_term_le s.cfg pred,
      d_term_le s pred,
    )

pub step_rejected :
    (s : IntegralRework) (i : ControlInput)
    → (step s i).1.rejected ≡ true
    → ((step s i).0.reject_cnt ≡ s.reject_cnt + 1) × (s.reject_cnt < s.cfg.outlier_max)
unfolding step is_outlier
step_rejected s i h = ground arith

pub step_calm :
    (s : IntegralRework) (i : ControlInput)
    → IsSane s
    → IsCalm (limits s) i
    → min (s.lock_cnt + 1) s.cfg.lock_hold ≤ (step s i).0.lock_cnt
unfolding step is_outlier
step_calm s i h calm = ground (
  arith,
  calm,
  h.lock_le,
  h.window,
  h.hold_fits,
  count_lock_calm s.cfg.lock_ns i.err_ns s.cfg.lock_hold s.lock_cnt,
)

pub locked_lem : (s : IntegralRework) → IsSane s → s.cfg.lock_hold ≤ s.lock_cnt → is_locked s ≡ true
unfolding is_locked
locked_lem s h enough = ground arith

abbrev pub laws : Laws controller
laws = record {
  IsStable = IsSane;
  limits = limits;
  lock_cnt = λ s. s.lock_cnt;
  reject_cnt = λ s. s.reject_cnt;
  step-IsStable = step-IsSane;
  step_limits = step_limits;
  step-IsWithin = step-IsWithin;
  step_rejected = step_rejected;
  step_calm = step_calm;
  locked_lem = locked_lem;
}
