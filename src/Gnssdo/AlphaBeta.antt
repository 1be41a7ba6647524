-- ===== src/Gnssdo/AlphaBeta.antt =====
-- gnssdo/src/controllers.rs: `AlphaBetaBoost`, the observer of phase and drift with its boost.
-- The sums of `i64` are in ℤ. `trim_max_mppb` is not negative: `clamp` panics for a negative one.
pub mod Laws
pub mod Backstop
use pico_gnss.Base.{
  ℕ, ◌+◌, ◌-◌, ◌%◌, ◌^◌, min, ltb, leb, if◌then◌else◌, Bool, true, false, not, ◌&&◌, ◌||◌,
}
use pico_gnss.Base.Int.{ℤ, pos, ◌+ℤ◌, ◌-ℤ◌, ◌*ℤ◌, ◌/ℤ◌, neg_ℤ, ltb_ℤ, leb_ℤ, abs_ℕ}
use pico_gnss.Base.Int.Scale.{clamp_about, max_one}
use pico_gnss.Gnssdo.Control.{
  ControlInput, ControlOutput, ControlInit, PhaseController, corr_clamp_ns,
}
use pico_gnss.Gnssdo.Pll.{count_lock}

pub record AlphaBetaBoostConfig : Type 0 where
  pub steady_alpha_inv : ℤ
  pub steady_beta_inv : ℤ
  pub steady_pgain_inv : ℤ
  pub fast_alpha_inv : ℤ
  pub fast_beta_inv : ℤ
  pub fast_pgain_inv : ℤ
  pub innov_enter_ns : ℤ
  pub boost_max_edges : ℕ
  pub exit_lock_ns : ℤ
  pub exit_hold : ℕ
  pub lock_ns : ℤ
  pub lock_hold : ℕ
  pub outlier_ns : ℤ
  pub outlier_max : ℕ
  pub trim_max_mppb : ℕ

abbrev pub default_boost : AlphaBetaBoostConfig
default_boost = record {
  steady_alpha_inv = pos 4;
  steady_beta_inv = pos 64;
  steady_pgain_inv = pos 8;
  fast_alpha_inv = pos 2;
  fast_beta_inv = pos 8;
  fast_pgain_inv = pos 3;
  innov_enter_ns = pos 3_000;
  boost_max_edges = 40;
  exit_lock_ns = pos 1_000;
  exit_hold = 5;
  lock_ns = pos 1_000;
  lock_hold = 5;
  outlier_ns = pos 3_000;
  outlier_max = 12;
  trim_max_mppb = 3_000_000;
}

-- The boost: whether it runs, for how many edges, and how many of the last ones were calm.
pub record Boost : Type 0 where
  pub boosting : Bool
  pub boost_edges : ℕ
  pub exit_cnt : ℕ

pub record AlphaBetaBoost : Type 0 where
  pub cfg : AlphaBetaBoostConfig
  pub phase_hat : ℤ
  pub drift_hat_mppb : ℤ
  pub last_trim_mppb : ℤ
  pub last_pcorr_ns : ℤ
  pub boost : Boost
  pub lock_cnt : ℕ
  pub reject_cnt : ℕ

abbrev pub no_boost : Boost
no_boost = record { boosting = false; boost_edges = 0; exit_cnt = 0 }

abbrev pub with_config : AlphaBetaBoostConfig → AlphaBetaBoost
with_config cfg = record {
  cfg = cfg;
  phase_hat = pos 0;
  drift_hat_mppb = pos 0;
  last_trim_mppb = pos 0;
  last_pcorr_ns = pos 0;
  boost = no_boost;
  lock_cnt = 0;
  reject_cnt = 0;
}

unfoldable pub freq_trim_mppb : AlphaBetaBoost → ℤ
freq_trim_mppb self = clamp_about (neg_ℤ self.drift_hat_mppb) self.cfg.trim_max_mppb

-- `saturating_add(1)` on `u32`.
abbrev pub count_edge : ℕ → ℕ
count_edge n = min (n + 1) (2 ^ 32 - 1)

unfoldable pub tick_boost_backstop : AlphaBetaBoostConfig → Boost → Boost
tick_boost_backstop cfg b =
    let edges = count_edge b.boost_edges in
    if b.boosting
    then record b { boosting = ltb edges cfg.boost_max_edges; boost_edges = edges }
    else b

unfoldable pub is_locked : AlphaBetaBoost → Bool
is_locked self = leb self.cfg.lock_hold self.lock_cnt

unfoldable pub phase_pred : AlphaBetaBoost → ℤ
phase_pred self =
    self.phase_hat +ℤ (self.drift_hat_mppb +ℤ self.last_trim_mppb) /ℤ 1000 -ℤ self.last_pcorr_ns

unfoldable pub is_outlier : AlphaBetaBoost → ℤ → Bool
is_outlier self z =
    is_locked self
    && ltb_ℤ self.cfg.outlier_ns (pos (abs_ℕ z))
    && ltb self.reject_cnt self.cfg.outlier_max

unfoldable pub accepted_disturbance : AlphaBetaBoost → ℤ → Bool
accepted_disturbance self z =
    leb self.cfg.outlier_max self.reject_cnt && leb_ℤ self.cfg.lock_ns (pos (abs_ℕ z))

-- The boost behind an edge that is applied.
unfoldable pub next_boost : AlphaBetaBoostConfig → Boost → ℤ → ℤ → Bool → Boost
next_boost cfg b z innov disturbed =
    let edges = count_edge b.boost_edges in
    let calm = if ltb_ℤ (pos (abs_ℕ z)) cfg.exit_lock_ns then (b.exit_cnt + 1) % 2 ^ 32 else 0 in
    if not b.boosting
    then if ltb_ℤ cfg.innov_enter_ns (pos (abs_ℕ innov)) || disturbed
      then record { boosting = true; boost_edges = 0; exit_cnt = 0 }
      else b
    else record {
      boosting = not (leb cfg.exit_hold calm || leb cfg.boost_max_edges edges);
      boost_edges = edges;
      exit_cnt = calm;
    }

-- The gains of the regime, at least one.
unfoldable pub alpha_inv : AlphaBetaBoostConfig → Bool → ℕ
alpha_inv cfg boosting =
    if boosting then max_one cfg.fast_alpha_inv else max_one cfg.steady_alpha_inv

unfoldable pub beta_inv : AlphaBetaBoostConfig → Bool → ℕ
beta_inv cfg boosting = if boosting then max_one cfg.fast_beta_inv else max_one cfg.steady_beta_inv

unfoldable pub pgain_inv : AlphaBetaBoostConfig → Bool → ℕ
pgain_inv cfg boosting =
    if boosting then max_one cfg.fast_pgain_inv else max_one cfg.steady_pgain_inv

unfoldable pub next_drift : AlphaBetaBoost → ℤ → Bool → ℤ
next_drift self innov boosting =
    clamp_about (self.drift_hat_mppb +ℤ (innov *ℤ 1000) /ℤ beta_inv self.cfg boosting)
      self.cfg.trim_max_mppb

-- The two actuators.
unfoldable pub next_trim : AlphaBetaBoostConfig → ℤ → ℤ
next_trim cfg drift = clamp_about (neg_ℤ drift) cfg.trim_max_mppb

unfoldable pub next_pcorr : AlphaBetaBoostConfig → ℤ → Bool → ℤ
next_pcorr cfg phase boosting = clamp_about (phase /ℤ pgain_inv cfg boosting) corr_clamp_ns

code_of : Bool → ℕ
code_of boosting = if boosting then 1 else 0

-- What `step` gives for an edge that it holds.
held : AlphaBetaBoost → ℤ → Bool → Boost → ControlOutput
unfolding code_of
held self pred rejected b = record {
  trim_mppb = freq_trim_mppb self;
  pcorr_ns = pos 0;
  applied = false;
  locked = is_locked self;
  rejected = rejected;
  dbg = record {
    pred_ns = pred;
    p_ns = pos 0;
    d_ns = pos 0;
    observer_freq_mppb = self.drift_hat_mppb;
    state = code_of b.boosting;
  };
}

-- The part of `step` behind the tests for a holdover and a spike.
apply_edge : AlphaBetaBoost → ℤ → AlphaBetaBoost × ControlOutput
unfolding code_of
apply_edge self z =
    let cfg = self.cfg in
    let pred = phase_pred self in
    let innov = z -ℤ pred in
    let b = next_boost cfg self.boost z innov (accepted_disturbance self z) in
    let phase = pred +ℤ innov /ℤ alpha_inv cfg b.boosting in
    let drift = next_drift self innov b.boosting in
    let trim = next_trim cfg drift in
    let pcorr = next_pcorr cfg phase b.boosting in
    (
      record {
        cfg = cfg;
        phase_hat = phase;
        drift_hat_mppb = drift;
        last_trim_mppb = trim;
        last_pcorr_ns = pcorr;
        boost = b;
        lock_cnt = count_lock cfg.lock_ns cfg.lock_hold self.lock_cnt z;
        reject_cnt = 0;
      },
      record {
        trim_mppb = trim;
        pcorr_ns = pcorr;
        applied = true;
        locked = is_locked self;
        rejected = false;
        dbg = record {
          pred_ns = pred;
          p_ns = pcorr;
          d_ns = pos 0;
          observer_freq_mppb = drift;
          state = code_of b.boosting;
        };
      },
    )

unfoldable pub step : AlphaBetaBoost → ControlInput → AlphaBetaBoost × ControlOutput
unfolding apply_edge held
step self input =
    let z = input.err_ns in
    let b = tick_boost_backstop self.cfg self.boost in
    if input.valid
    then if is_outlier self z
      then (
        record self { boost = b; reject_cnt = self.reject_cnt + 1 },
        held self (phase_pred self) true b,
      )
      else apply_edge self z
    else (record self { boost = b }, held self self.phase_hat false b)

unfoldable pub start_segment : AlphaBetaBoost → ControlInit → AlphaBetaBoost
start_segment self init = record {
  cfg = self.cfg;
  phase_hat = pos 0;
  drift_hat_mppb = neg_ℤ init.residual_trim_mppb;
  last_trim_mppb = init.residual_trim_mppb;
  last_pcorr_ns = pos 0;
  boost = no_boost;
  lock_cnt = 0;
  reject_cnt = 0;
}

abbrev pub controller : PhaseController AlphaBetaBoost
controller = record { step = step; is_locked = is_locked; start_segment = start_segment }
