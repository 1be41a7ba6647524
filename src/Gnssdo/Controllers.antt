-- ===== src/Gnssdo/Controllers.antt =====
-- gnssdo/src/controllers.rs: the open loop, and `Controller`, the choice of a loop at run time.
pub mod Laws
pub mod Segments
use pico_gnss.Base.{Bool, false}
use pico_gnss.Base.Int.{ℤ, pos}
use pico_gnss.Gnssdo.Control.{
  ControlInput, ControlOutput, ControlInit, PhaseController, default_debug,
}
use pico_gnss.Gnssdo.Pll
use pico_gnss.Gnssdo.Pll.{PhaseLockLoop}
use pico_gnss.Gnssdo.IntegralRework as Rework
use pico_gnss.Gnssdo.AlphaBeta

pub record OpenLoopFf : Type 0 where
  pub residual_trim_mppb : ℤ

abbrev pub open_loop_step : OpenLoopFf → ControlInput → OpenLoopFf × ControlOutput
open_loop_step self input = (
  self,
  record {
    trim_mppb = self.residual_trim_mppb;
    pcorr_ns = pos 0;
    applied = input.valid;
    locked = false;
    rejected = false;
    dbg = record default_debug {
      pred_ns = input.err_ns;
      observer_freq_mppb = self.residual_trim_mppb;
    };
  },
)

pub data Controller : Type 0 where
  pll : PhaseLockLoop → Controller
  integ_rework : Rework.IntegralRework → Controller
  ab_boost : AlphaBeta.AlphaBetaBoost → Controller
  open_loop : OpenLoopFf → Controller

-- The state of the chosen loop behind its operation.
abbrev on_state {ℓ} :
    {S : Type ℓ} → (S → Controller) → S × ControlOutput → Controller × ControlOutput
on_state wrap (s, o) = (wrap s, o)

unfoldable pub step : Controller → ControlInput → Controller × ControlOutput
step (pll c) input = on_state pll (Pll.step c input)
step (integ_rework c) input = on_state integ_rework (Rework.step c input)
step (ab_boost c) input = on_state ab_boost (AlphaBeta.step c input)
step (open_loop c) input = on_state open_loop (open_loop_step c input)

unfoldable pub is_locked : Controller → Bool
is_locked (pll c) = Pll.is_locked c
is_locked (integ_rework c) = Rework.is_locked c
is_locked (ab_boost c) = AlphaBeta.is_locked c
is_locked (open_loop c) = false

unfoldable pub start_segment : Controller → ControlInit → Controller
start_segment (pll c) init = pll (Pll.start_segment c init)
start_segment (integ_rework c) init = integ_rework (Rework.start_segment c init)
start_segment (ab_boost c) init = ab_boost (AlphaBeta.start_segment c init)
start_segment (open_loop c) init =
    open_loop (record { residual_trim_mppb = init.residual_trim_mppb })

abbrev pub controller : PhaseController Controller
controller = record { step = step; is_locked = is_locked; start_segment = start_segment }
