-- ===== src/Gnssdo/IntegralRework.antt =====
-- gnssdo/src/controllers.rs: `IntegralRework`, the loop whose integrator always runs.
-- `trim_max_mppb` and `e_i_ns` are not negative: `clamp` panics for a negative one.
pub mod Laws
use pico_gnss.Base.{ℕ, ◌+◌, ltb, leb, if◌then◌else◌, Bool, true, false, ◌&&◌}
use pico_gnss.Base.Int.{ℤ, pos, ◌+ℤ◌, ◌-ℤ◌, ◌*ℤ◌, ◌/ℤ◌, ltb_ℤ, abs_ℕ}
use pico_gnss.Base.Int.Scale.{clamp_about, max_one}
use pico_gnss.Gnssdo.Control.{
  ControlInput, ControlOutput, ControlInit, PhaseController, corr_clamp_ns,
}
use pico_gnss.Gnssdo.Pll.{count_lock}

pub record IntegralReworkConfig : Type 0 where
  pub kp_inv : ℤ
  pub d_den : ℤ
  pub i_den : ℤ
  pub e_i_ns : ℕ
  pub kbc_inv : ℤ
  pub lock_ns : ℤ
  pub lock_hold : ℕ
  pub outlier_ns : ℤ
  pub outlier_max : ℕ
  pub trim_max_mppb : ℕ

abbrev pub default_rework : IntegralReworkConfig
default_rework = record {
  kp_inv = pos 8;
  d_den = pos 4;
  i_den = pos 128;
  e_i_ns = 800;
  kbc_inv = pos 5;
  lock_ns = pos 1_000;
  lock_hold = 5;
  outlier_ns = pos 3_000;
  outlier_max = 12;
  trim_max_mppb = 3_000_000;
}

pub record IntegralRework : Type 0 where
  pub cfg : IntegralReworkConfig
  pub trim_mppb : ℤ
  pub lock_cnt : ℕ
  pub reject_cnt : ℕ
  pub last_pred : ℤ
  pub last_pd : ℤ

abbrev pub with_config : IntegralReworkConfig → IntegralRework
with_config cfg = record {
  cfg = cfg;
  trim_mppb = pos 0;
  lock_cnt = 0;
  reject_cnt = 0;
  last_pred = pos 0;
  last_pd = pos 0;
}

unfoldable pub is_locked : IntegralRework → Bool
is_locked self = leb self.cfg.lock_hold self.lock_cnt

unfoldable pub is_outlier : IntegralRework → ℤ → Bool
is_outlier self ctrl =
    is_locked self
    && ltb_ℤ self.cfg.outlier_ns (pos (abs_ℕ ctrl))
    && ltb self.reject_cnt self.cfg.outlier_max

-- The trim before the clamp.
unfoldable pub wanted : IntegralRework → ℤ → ℤ
wanted self pred =
    self.trim_mppb -ℤ (clamp_about pred self.cfg.e_i_ns *ℤ 1000) /ℤ max_one self.cfg.i_den

-- The clamped trim, with a part of what the clamp cut off taken back.
unfoldable pub integrate : IntegralRework → ℤ → ℤ
integrate self pred =
    let want = wanted self pred in
    let clamped = clamp_about want self.cfg.trim_max_mppb in
    clamped -ℤ (want -ℤ clamped) /ℤ max_one self.cfg.kbc_inv

unfoldable pub p_term : IntegralReworkConfig → ℤ → ℤ
p_term cfg pred = clamp_about (pred /ℤ max_one cfg.kp_inv) corr_clamp_ns

unfoldable pub d_term : IntegralRework → ℤ → ℤ
d_term self pred =
    if is_locked self
    then clamp_about ((pred -ℤ self.last_pred) /ℤ max_one self.cfg.d_den) corr_clamp_ns
    else pos 0

apply_edge : IntegralRework → ℤ → IntegralRework
apply_edge self ctrl =
    let pred = ctrl -ℤ self.last_pd in
    let cfg = self.cfg in
    record {
      cfg = cfg;
      trim_mppb = integrate self pred;
      lock_cnt = count_lock cfg.lock_ns cfg.lock_hold self.lock_cnt ctrl;
      reject_cnt = 0;
      last_pred = pred;
      last_pd = p_term cfg pred +ℤ d_term self pred;
    }

-- What `step` gives for the terms of an edge, with the trim that it leaves.
output : IntegralRework → ℤ → ℤ → ℤ → ℤ → Bool → Bool → ControlOutput
output self ctrl trim p_corr d_corr applied rejected = record {
  trim_mppb = trim;
  pcorr_ns = p_corr +ℤ d_corr;
  applied = applied;
  locked = is_locked self;
  rejected = rejected;
  dbg = record {
    pred_ns = ctrl -ℤ self.last_pd;
    p_ns = p_corr;
    d_ns = d_corr;
    observer_freq_mppb = trim;
    state = 0;
  };
}

unfoldable pub step : IntegralRework → ControlInput → IntegralRework × ControlOutput
unfolding apply_edge output
step self input =
    let ctrl = input.err_ns in
    let pred = ctrl -ℤ self.last_pd in
    if input.valid
    then if is_outlier self ctrl
      then (
        record self { reject_cnt = self.reject_cnt + 1 },
        output self ctrl self.trim_mppb (pos 0) (pos 0) false true,
      )
      else (
        apply_edge self ctrl,
        output self ctrl (integrate self pred) (p_term self.cfg pred) (d_term self pred) true false,
      )
    else (self, output self ctrl self.trim_mppb (pos 0) (pos 0) false false)

unfoldable pub start_segment : IntegralRework → ControlInit → IntegralRework
start_segment self init = record {
  cfg = self.cfg;
  trim_mppb = init.residual_trim_mppb;
  lock_cnt = 0;
  reject_cnt = 0;
  last_pred = pos 0;
  last_pd = pos 0;
}

abbrev pub controller : PhaseController IntegralRework
controller = record { step = step; is_locked = is_locked; start_segment = start_segment }
