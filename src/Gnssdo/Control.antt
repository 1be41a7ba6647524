-- ===== src/Gnssdo/Control.antt =====
-- gnssdo/src/control.rs: what a controller of the output phase takes and gives.
-- The trait `PhaseController` is the record of its three operations.

pub mod Runs
use pico_gnss.Base.{ℕ, Bool}
use pico_gnss.Base.Int.{ℤ, pos}

pub record ControlInput : Type 0 where
  pub err_ns : ℤ
  pub valid : Bool

pub record ControlDebug : Type 0 where
  pub pred_ns : ℤ
  pub p_ns : ℤ
  pub d_ns : ℤ
  pub observer_freq_mppb : ℤ
  pub state : ℕ

abbrev pub default_debug : ControlDebug
default_debug = record {
  pred_ns = pos 0;
  p_ns = pos 0;
  d_ns = pos 0;
  observer_freq_mppb = pos 0;
  state = 0;
}

pub record ControlOutput : Type 0 where
  pub trim_mppb : ℤ
  pub pcorr_ns : ℤ
  pub applied : Bool
  pub locked : Bool
  pub rejected : Bool
  pub dbg : ControlDebug

pub record ControlInit : Type 0 where
  pub residual_trim_mppb : ℤ

pub record PhaseController (S : Type 0) : Type 0 where
  pub step : S → ControlInput → S × ControlOutput
  pub is_locked : S → Bool
  pub start_segment : S → ControlInit → S

-- `CORR_CLAMP_NS`, of controllers.rs and of pll.rs.
abbrev pub corr_clamp_ns : ℕ
corr_clamp_ns = 100_000_000
