-- ===== src/Gnssdo/Clock.antt =====
-- gnssdo/src/gpsdo.rs: the state of the disciplined clock, and what a pulse and a temperature do to
-- it. The sums of `i64` are in ℤ; casts to `i64` and shifts to the left keep their wrap-around.
-- The bounds of the clamps are not negative: `clamp` panics for a negative one.
pub mod Readout
pub mod Gates
pub mod Bounds
pub mod Reach
use pico_gnss.Base.{
  ℕ, ◌+◌, ◌-◌, ◌%◌, ◌^◌, min, ltb, leb, ◌==◌, if◌then◌else◌, Bool, true, false, ◌&&◌, Option, none,
  some,
}
use pico_gnss.Base.Int.{ℤ, pos, pos_part, ◌+ℤ◌, ◌-ℤ◌, ◌*ℤ◌, ◌/ℤ◌, ltb_ℤ, leb_ℤ, abs_ℕ, to_i64}
use pico_gnss.Base.Int.Scale.{◌×ℤ◌, clamp_ℤ, clamp_about, ◌>>ℤ◌, ◌<<ℤ◌}

-- `lock_samples`, `sane_dev_ns`, `converge_gate_ns` and `residual_gate_ns` are not zero.
pub record DisciplinedClockConfig : Type 0 where
  pub ema_shift : ℕ
  pub ema_shift_fast : ℕ
  pub lock_samples : ℕ
  pub sane_dev_ns : ℕ
  pub converge_gate_ns : ℕ
  pub residual_gate_ns : ℕ
  pub quarantine_samples : ℕ
  pub slope_ema_shift : ℕ
  pub slope_max_mppb : ℕ
  pub pred_lead_samples : ℤ
  pub residual_slope_widen : ℤ
  pub slope_freeze_resid_mppb : ℤ
  pub temp_ff_enable : Bool
  pub temp_ff_shift : ℕ
  pub temp_ff_sm_shift : ℕ
  pub temp_ff_gain_q8 : ℤ
  pub temp_ff_lag_q8 : ℤ
  pub temp_ff_dlead_shift : ℕ
  pub resid_obs_shift : ℕ
  pub temp_k_clamp_mppb : ℕ
  pub temp_ff_lead_clamp_raw : ℤ
  pub steer_ff_bound_mppb : ℕ

abbrev pub default_clock : DisciplinedClockConfig
default_clock = record {
  ema_shift = 5;
  ema_shift_fast = 3;
  lock_samples = 8;
  sane_dev_ns = 1_000_000;
  converge_gate_ns = 100_000;
  residual_gate_ns = 5_000;
  quarantine_samples = 5;
  slope_ema_shift = 9;
  slope_max_mppb = 5_000;
  pred_lead_samples = pos 1;
  residual_slope_widen = pos 8;
  slope_freeze_resid_mppb = pos 2_000_000;
  temp_ff_enable = false;
  temp_ff_shift = 7;
  temp_ff_sm_shift = 4;
  temp_ff_gain_q8 = pos 64;
  temp_ff_lag_q8 = pos 1536;
  temp_ff_dlead_shift = 2;
  resid_obs_shift = 2;
  temp_k_clamp_mppb = 100_000;
  temp_ff_lead_clamp_raw = pos 64;
  steer_ff_bound_mppb = 100_000;
}

pub data FreqUpdate : Type 0 where
  applied gated_sane gated_quality quarantined : FreqUpdate

-- The temperature model: the regression, the observer of the residual and the matched lead.
pub record TempModel : Type 0 where
  pub temp_now : ℤ
  pub temp_have : Bool
  pub temp_sm : ℤ
  pub temp_mt : ℤ
  pub temp_mf_mppb : ℤ
  pub temp_cov : ℤ
  pub temp_var : ℤ
  pub temp_ref : ℤ
  pub r_resid : ℤ
  pub temp_die_lp : ℤ
  pub temp_die_prev : ℤ
  pub temp_dlead : ℤ
  pub tcrys_hat : ℤ

abbrev pub no_temp : TempModel
no_temp = record {
  temp_now = pos 0;
  temp_have = false;
  temp_sm = pos 0;
  temp_mt = pos 0;
  temp_mf_mppb = pos 0;
  temp_cov = pos 0;
  temp_var = pos 0;
  temp_ref = pos 0;
  r_resid = pos 0;
  temp_die_lp = pos 0;
  temp_die_prev = pos 0;
  temp_dlead = pos 0;
  tcrys_hat = pos 0;
}

pub record DisciplinedClock : Type 0 where
  pub config : DisciplinedClockConfig
  pub freq_mppb : ℤ
  pub freq_slope_mppb : ℤ
  pub samples : ℕ
  pub quarantine : ℕ
  pub epoch_capture_ns : Option ℕ
  pub epoch_query_ns : Option ℕ
  pub epoch_unix_ns : Option ℤ
  pub last_query_ns : Option ℕ
  pub temp : TempModel

abbrev pub with_config : DisciplinedClockConfig → DisciplinedClock
with_config config = record {
  config = config;
  freq_mppb = pos 0;
  freq_slope_mppb = pos 0;
  samples = 0;
  quarantine = 0;
  epoch_capture_ns = none;
  epoch_query_ns = none;
  epoch_unix_ns = none;
  last_query_ns = none;
  temp = no_temp;
}

unfoldable pub is_locked : DisciplinedClock → Bool
is_locked self = leb self.config.lock_samples self.samples

-- `TEMP_FP`.
abbrev pub temp_fp : ℕ
temp_fp = 8

pub temp_k_mppb_per_unit : TempModel → ℤ
temp_k_mppb_per_unit t =
    if ltb_ℤ (pos 0) t.temp_var then (t.temp_cov <<ℤ temp_fp) /ℤ pos_part t.temp_var else pos 0

-- The feedforward, with the product and the quotient in `i128`.
unfoldable pub temp_ff_mppb : DisciplinedClockConfig → TempModel → ℤ → ℤ
temp_ff_mppb config t tcrys_hat_fp =
    let k = clamp_about (temp_k_mppb_per_unit t) config.temp_k_clamp_mppb in
    if leb_ℤ t.temp_var (pos 0)
    then pos 0
    else to_i64 ((k ×ℤ (tcrys_hat_fp -ℤ t.temp_ref)) /ℤ (2 ^ temp_fp))

-- A step of an average towards `target`.
unfoldable pub ema : ℤ → ℤ → ℕ → ℤ
ema value target shift = value +ℤ ((target -ℤ value) >>ℤ shift)

-- The regression of the frequency on the temperature, and then the observer of the residual.
unfoldable pub learn_temp : DisciplinedClockConfig → TempModel → ℤ → TempModel
learn_temp config t measured_mppb =
    let s = min config.temp_ff_shift 30 in
    let mt = ema t.temp_mt t.temp_sm s in
    let mf = ema t.temp_mf_mppb measured_mppb s in
    let dt = t.temp_sm -ℤ mt in
    let df = measured_mppb -ℤ mf in
    let t' : TempModel = record t {
      temp_mt = mt;
      temp_mf_mppb = mf;
      temp_cov = ema t.temp_cov (dt ×ℤ df) s;
      temp_var = ema t.temp_var (dt ×ℤ dt) s;
    } in
    let innov = measured_mppb -ℤ temp_ff_mppb config t' t'.tcrys_hat -ℤ t'.r_resid in
    record t' { r_resid = t'.r_resid +ℤ (innov >>ℤ min config.resid_obs_shift 63) }

-- Whether the quality gate rejects a measurement.
unfoldable pub is_gated : DisciplinedClock → ℤ → ℤ → Bool
is_gated self dev measured_mppb =
    let gate =
      to_i64 (pos self.config.residual_gate_ns) *ℤ 1000
      +ℤ pos (abs_ℕ self.freq_slope_mppb) ×ℤ self.config.residual_slope_widen in
    if is_locked self
    then ltb_ℤ gate (pos (abs_ℕ (measured_mppb -ℤ self.freq_mppb)))
    else ltb_ℤ (to_i64 (pos self.config.converge_gate_ns)) (pos (abs_ℕ dev))

-- The level one sample ahead.
unfoldable pub projected : DisciplinedClock → ℤ
projected self = self.freq_mppb +ℤ self.freq_slope_mppb

unfoldable pub level_shift : DisciplinedClock → ℕ
level_shift self =
    min (if is_locked self then self.config.ema_shift else self.config.ema_shift_fast) 63

unfoldable pub next_slope : DisciplinedClock → ℤ → ℤ
next_slope self resid =
    if is_locked self && ltb_ℤ (pos (abs_ℕ resid)) self.config.slope_freeze_resid_mppb
    then clamp_about (self.freq_slope_mppb +ℤ (resid >>ℤ min self.config.slope_ema_shift 63))
        self.config.slope_max_mppb
    else self.freq_slope_mppb

-- The state behind a measurement that passes the gates.
unfoldable pub apply_measurement : DisciplinedClock → ℤ → DisciplinedClock
apply_measurement self measured_mppb =
    let resid = measured_mppb -ℤ projected self in
    let learns = self.config.temp_ff_enable && self.temp.temp_have && is_locked self in
    record self {
      freq_mppb = projected self +ℤ (resid >>ℤ level_shift self);
      freq_slope_mppb = next_slope self resid;
      samples = (self.samples + 1) % 2 ^ 32;
      temp = if learns then learn_temp self.config self.temp measured_mppb else self.temp;
    }

-- The deviation of an interval, in ppb.
unfoldable pub deviation : ℤ → ℤ
deviation interval_ns = interval_ns -ℤ pos 1_000_000_000

unfoldable pub update_freq : DisciplinedClock → ℤ → DisciplinedClock × FreqUpdate
update_freq self interval_ns =
    let dev = deviation interval_ns in
    let measured_mppb = dev *ℤ 1000 in
    if leb_ℤ (to_i64 (pos self.config.sane_dev_ns)) (pos (abs_ℕ dev))
    then (self, gated_sane)
    else if ltb 0 self.quarantine
    then (record self { quarantine = self.quarantine - 1 }, quarantined)
    else if self.samples == 0
    then (record self { freq_mppb = measured_mppb; samples = 1 }, applied)
    else if is_gated self dev measured_mppb
    then (self, gated_quality)
    else (apply_measurement self measured_mppb, applied)

-- The first reading sets the reference; the others move the averages and the matched lead.
unfoldable pub first_temp : TempModel → ℤ → ℤ → TempModel
first_temp t temp freq_mppb =
    let t_fp = temp <<ℤ temp_fp in
    record t {
      temp_now = temp;
      temp_have = true;
      temp_sm = t_fp;
      temp_mt = t_fp;
      temp_mf_mppb = freq_mppb;
      temp_ref = t_fp;
      temp_die_lp = t_fp;
      temp_die_prev = t_fp;
      temp_dlead = pos 0;
      tcrys_hat = t_fp;
    }

unfoldable pub next_temp : DisciplinedClockConfig → TempModel → ℤ → TempModel
next_temp config t temp =
    let t_fp = temp <<ℤ temp_fp in
    let sm = min config.temp_ff_sm_shift 30 in
    let die_lp = ema t.temp_die_lp t_fp sm in
    let dlead = ema t.temp_dlead (die_lp -ℤ t.temp_die_prev) (min config.temp_ff_dlead_shift 63) in
    let lead = (config.temp_ff_lag_q8 ×ℤ dlead) >>ℤ 8 in
    let bound = config.temp_ff_lead_clamp_raw <<ℤ temp_fp in
    record t {
      temp_now = temp;
      temp_sm = ema t.temp_sm t_fp sm;
      temp_die_lp = die_lp;
      temp_die_prev = die_lp;
      temp_dlead = dlead;
      tcrys_hat = clamp_ℤ (die_lp +ℤ lead) (die_lp -ℤ bound) (die_lp +ℤ bound);
    }

unfoldable pub update_temp : DisciplinedClock → ℤ → DisciplinedClock
update_temp self temp = record self {
  temp =
      if self.temp.temp_have
      then next_temp self.config self.temp temp
      else first_temp self.temp temp self.freq_mppb;
}

pub set_temp_ff_enable : DisciplinedClock → Bool → DisciplinedClock
set_temp_ff_enable self en = record self { config = record (self.config) { temp_ff_enable = en } }

pub set_temp_ff_params : DisciplinedClock → ℕ → ℕ → ℤ → DisciplinedClock
set_temp_ff_params self sm_shift shift gain_q8 = record self {
  config = record (self.config) {
    temp_ff_sm_shift = sm_shift;
    temp_ff_shift = shift;
    temp_ff_gain_q8 = gain_q8;
  };
}

pub set_temp_ff_lag : DisciplinedClock → ℤ → ℕ → ℕ → DisciplinedClock
set_temp_ff_lag self lag_q8 dlead_shift obs_shift = record self {
  config = record (self.config) {
    temp_ff_lag_q8 = lag_q8;
    temp_ff_dlead_shift = dlead_shift;
    resid_obs_shift = obs_shift;
  };
}

-- No quarantine before the first sample.
unfoldable pub start_quarantine : DisciplinedClock → DisciplinedClock
start_quarantine self =
    if ltb 0 self.samples then record self { quarantine = self.config.quarantine_samples } else self

unfoldable pub update_epoch : DisciplinedClock → ℕ → ℕ → ℤ → DisciplinedClock
update_epoch self capture_ns query_ns unix_ns = record self {
  epoch_capture_ns = some capture_ns;
  epoch_query_ns = some query_ns;
  epoch_unix_ns = some unix_ns;
  last_query_ns = some query_ns;
}
