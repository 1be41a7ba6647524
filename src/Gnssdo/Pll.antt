-- ===== src/Gnssdo/Pll.antt =====
-- gnssdo/src/pll.rs: the phase-locked loop, with its Smith predictor.
-- The sums and products of `i64` are in ℤ; Range has the two terms with their wrap-around.
-- `trim_max_mppb` is not negative: `clamp` panics for a negative one.
pub mod Bounds
pub mod Range
pub mod Laws
use pico_gnss.Base.{
  ℕ, ◌+◌, ◌%◌, ◌^◌, min, ltb, leb, if◌then◌else◌, Bool, true, false, ◌&&◌, List, [], ◌∷◌, take,
  replicate,
}
use pico_gnss.Base.Int.{ℤ, pos, ◌+ℤ◌, ◌-ℤ◌, ◌*ℤ◌, ◌/ℤ◌, ltb_ℤ, abs_ℕ}
use pico_gnss.Base.Int.Scale.{clamp_about, max_one, ◌<<ℤ◌}
use pico_gnss.Gnssdo.Control.{
  ControlInput, ControlOutput, ControlInit, PhaseController, corr_clamp_ns,
}

pub data LoopMode : Type 0 where
  p pd pi pid pid_smith : LoopMode

abbrev pub use_i : LoopMode → Bool
use_i p = false
use_i pd = false
use_i pi = true
use_i pid = true
use_i pid_smith = true

abbrev pub use_d : LoopMode → Bool
use_d p = false
use_d pd = true
use_d pi = false
use_d pid = true
use_d pid_smith = true

abbrev pub smith : LoopMode → Bool
smith p = false
smith pd = false
smith pi = false
smith pid = false
smith pid_smith = true

abbrev pub mode_kp_inv : LoopMode → ℤ
mode_kp_inv mode = if smith mode then pos 8 else pos 16

pub record PhaseLockLoopConfig : Type 0 where
  pub mode : LoopMode
  pub deadband_ns : ℤ
  pub lock_ns : ℤ
  pub lock_hold : ℕ
  pub i_enable_ns : ℤ
  pub outlier_ns : ℤ
  pub outlier_max : ℕ
  pub i_den : ℤ
  pub trim_max_mppb : ℕ
  pub d_den : ℤ
  pub calm_ns : ℤ
  pub i_den_disturbed_shift : ℕ
  pub kp_inv : ℤ
  pub smith_edges : ℕ

abbrev pub default_pll : PhaseLockLoopConfig
default_pll = record {
  mode = pid_smith;
  deadband_ns = pos 0;
  lock_ns = pos 1_000;
  lock_hold = 5;
  i_enable_ns = pos 5_000;
  outlier_ns = pos 3_000;
  outlier_max = 12;
  i_den = pos 128;
  trim_max_mppb = 3_000_000;
  d_den = pos 4;
  calm_ns = pos 1_000;
  i_den_disturbed_shift = 0;
  kp_inv = pos 0;
  smith_edges = 1;
}

abbrev pub naive_pid : PhaseLockLoopConfig
naive_pid = record default_pll { mode = pid }

abbrev pub naive_pi : PhaseLockLoopConfig
naive_pi = record default_pll { mode = pi }

abbrev pub p_only : PhaseLockLoopConfig
p_only = record default_pll { mode = p }

pub record PhaseLockLoopUpdate : Type 0 where
  pub applied : Bool
  pub locked : Bool
  pub rejected_outlier : Bool
  pub freq_trim_mppb : ℤ
  pub phase_corr_ns : ℤ
  pub p_corr_ns : ℤ
  pub d_corr_ns : ℤ
  pub predicted_phase_ns : ℤ

abbrev pub smith_max : ℕ
smith_max = 8

-- `pd_hist` holds the last corrections, the newest first.
pub record PhaseLockLoop : Type 0 where
  pub config : PhaseLockLoopConfig
  pub lock_cnt : ℕ
  pub reject_cnt : ℕ
  pub trim_mppb : ℤ
  pub last_pred : ℤ
  pub pd_hist : List ℤ

abbrev pub with_config : PhaseLockLoopConfig → PhaseLockLoop
with_config config = record {
  config = config;
  lock_cnt = 0;
  reject_cnt = 0;
  trim_mppb = pos 0;
  last_pred = pos 0;
  pd_hist = replicate smith_max (pos 0);
}

unfoldable pub kp_inv : PhaseLockLoopConfig → ℤ
kp_inv config = if ltb_ℤ (pos 0) config.kp_inv then config.kp_inv else mode_kp_inv config.mode

unfoldable pub total : List ℤ → ℤ
total [] = pos 0
total (x ∷ xs) = x +ℤ total xs

-- How many corrections are still in flight: `clamp(1, SMITH_MAX)`.
abbrev pub in_flight : ℕ → ℕ
in_flight edges = if ltb edges 1 then 1 else min edges smith_max

unfoldable pub smith_in_flight : PhaseLockLoop → ℤ
unfolding total
smith_in_flight self = total (take (in_flight self.config.smith_edges) self.pd_hist)

-- The setters of the experiment harness.
pub set_mode : PhaseLockLoop → LoopMode → PhaseLockLoop
set_mode self mode = record self { config = record (self.config) { mode = mode } }

pub set_i_den : PhaseLockLoop → ℤ → PhaseLockLoop
set_i_den self i_den = record self { config = record (self.config) { i_den = i_den } }

pub set_d_den : PhaseLockLoop → ℤ → PhaseLockLoop
set_d_den self d_den = record self { config = record (self.config) { d_den = d_den } }

pub set_kp_inv : PhaseLockLoop → ℤ → PhaseLockLoop
set_kp_inv self kp_inv = record self { config = record (self.config) { kp_inv = kp_inv } }

pub set_smith_edges : PhaseLockLoop → ℕ → PhaseLockLoop
set_smith_edges self edges = record self { config = record (self.config) { smith_edges = edges } }

unfoldable pub is_locked : PhaseLockLoop → Bool
is_locked self = leb self.config.lock_hold self.lock_cnt

-- The phase less the corrections in flight.
unfoldable pub predicted : PhaseLockLoop → ℤ → ℤ
predicted self ctrl = if smith self.config.mode then ctrl -ℤ smith_in_flight self else ctrl

-- The test for a spike behind the lock.
unfoldable pub is_outlier : PhaseLockLoop → ℤ → Bool
is_outlier self ctrl =
    is_locked self
    && ltb_ℤ self.config.outlier_ns (pos (abs_ℕ ctrl))
    && ltb self.reject_cnt self.config.outlier_max

-- The integral term: the new trim.
unfoldable pub integrate : PhaseLockLoop → ℤ → ℤ → ℤ
integrate self ctrl pred =
    let calm = ltb_ℤ (pos (abs_ℕ pred)) self.config.calm_ns in
    let slow = self.config.i_den <<ℤ min self.config.i_den_disturbed_shift 20 in
    let i_den_eff = if calm then self.config.i_den else slow in
    if use_i self.config.mode
    then if ltb_ℤ (pos (abs_ℕ ctrl)) self.config.i_enable_ns
      then clamp_about (self.trim_mppb -ℤ (pred *ℤ 1000) /ℤ max_one i_den_eff)
          self.config.trim_max_mppb
      else self.trim_mppb
    else pos 0

unfoldable pub p_term : PhaseLockLoopConfig → ℤ → ℤ
p_term config pred =
    if ltb_ℤ config.deadband_ns (pos (abs_ℕ pred))
    then clamp_about (pred /ℤ max_one (kp_inv config)) corr_clamp_ns
    else pos 0

unfoldable pub d_term : PhaseLockLoop → ℤ → ℤ
d_term self pred =
    if use_d self.config.mode && is_locked self
    then clamp_about ((pred -ℤ self.last_pred) /ℤ max_one self.config.d_den) corr_clamp_ns
    else pos 0

-- The count of the edges in the lock window, a `u32` that stops at `lock_hold`.
unfoldable pub count_lock : ℤ → ℕ → ℕ → ℤ → ℕ
count_lock lock_ns lock_hold lock_cnt ctrl =
    if ltb_ℤ (pos (abs_ℕ ctrl)) lock_ns then min ((lock_cnt + 1) % 2 ^ 32) lock_hold else 0

-- The state behind an edge that is applied.
apply_edge : PhaseLockLoop → ℤ → PhaseLockLoop
apply_edge self ctrl =
    let pred = predicted self ctrl in
    let config = self.config in
    record {
      config = config;
      lock_cnt = count_lock config.lock_ns config.lock_hold self.lock_cnt ctrl;
      reject_cnt = 0;
      trim_mppb = integrate self ctrl pred;
      last_pred = pred;
      pd_hist = (p_term config pred +ℤ d_term self pred) ∷ take 7 self.pd_hist;
    }

-- An edge that is held: no correction.
held : PhaseLockLoop → ℤ → Bool → PhaseLockLoopUpdate
held self ctrl rejected = record {
  applied = false;
  locked = is_locked self;
  rejected_outlier = rejected;
  freq_trim_mppb = self.trim_mppb;
  phase_corr_ns = pos 0;
  p_corr_ns = pos 0;
  d_corr_ns = pos 0;
  predicted_phase_ns = predicted self ctrl;
}

applied_update : PhaseLockLoop → ℤ → PhaseLockLoopUpdate
applied_update self ctrl =
    let pred = predicted self ctrl in
    record {
      applied = true;
      locked = is_locked self;
      rejected_outlier = false;
      freq_trim_mppb = integrate self ctrl pred;
      phase_corr_ns = p_term self.config pred +ℤ d_term self pred;
      p_corr_ns = p_term self.config pred;
      d_corr_ns = d_term self pred;
      predicted_phase_ns = pred;
    }

unfoldable pub update : PhaseLockLoop → ℤ → Bool → PhaseLockLoop × PhaseLockLoopUpdate
unfolding apply_edge held applied_update
update self ctrl valid =
    if valid
    then if is_outlier self ctrl
      then (record self { reject_cnt = self.reject_cnt + 1 }, held self ctrl true)
      else (apply_edge self ctrl, applied_update self ctrl)
    else (self, held self ctrl false)

unfoldable pub step : PhaseLockLoop → ControlInput → PhaseLockLoop × ControlOutput
step self input =
    let (self', u) = update self input.err_ns input.valid in
    (
      self',
      record {
        trim_mppb = u.freq_trim_mppb;
        pcorr_ns = u.phase_corr_ns;
        applied = u.applied;
        locked = u.locked;
        rejected = u.rejected_outlier;
        dbg = record {
          pred_ns = u.predicted_phase_ns;
          p_ns = u.p_corr_ns;
          d_ns = u.d_corr_ns;
          observer_freq_mppb = u.freq_trim_mppb;
          state = 0;
        };
      },
    )

unfoldable pub start_segment : PhaseLockLoop → ControlInit → PhaseLockLoop
start_segment self init = record {
  config = self.config;
  lock_cnt = 0;
  reject_cnt = 0;
  trim_mppb = init.residual_trim_mppb;
  last_pred = pos 0;
  pd_hist = replicate smith_max (pos 0);
}

abbrev pub controller : PhaseController PhaseLockLoop
controller = record { step = step; is_locked = is_locked; start_segment = start_segment }
