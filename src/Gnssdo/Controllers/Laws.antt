-- ===== src/Gnssdo/Controllers/Laws.antt =====
-- Whatever loop is chosen, a run of edges meets the laws of a controller.
use pico_gnss.Base.{ℕ, ◌+◌, ◌≤◌, ◌<◌, ◌≡◌, refl, arith, min, true, List, All, length}
use pico_gnss.Base.Int.{pos, abs_ℕ}
use pico_gnss.Gnssdo.Control.{ControlInput}
use pico_gnss.Gnssdo.Control.Runs.{
  IsWithin, Limits, IsCalm, Laws, run, run-IsWithin, run_rejected, run_locks,
}
use pico_gnss.Gnssdo.Pll.Laws as PllLaws
use pico_gnss.Gnssdo.IntegralRework.Laws as ReworkLaws
use pico_gnss.Gnssdo.AlphaBeta.Laws as AlphaBetaLaws
use pico_gnss.Gnssdo.Controllers.{
  Controller, pll, integ_rework, ab_boost, open_loop, step, is_locked, controller,
}

-- The open loop has no lock: it holds any trim, counts nothing and rejects nothing.
abbrev pub IsSane : Controller → Type 0
IsSane (pll c) = PllLaws.IsSane c
IsSane (integ_rework c) = ReworkLaws.IsSane c
IsSane (ab_boost c) = AlphaBetaLaws.IsSane c
IsSane (open_loop c) = Unit

abbrev pub limits : Controller → Limits
limits (pll c) = PllLaws.limits c
limits (integ_rework c) = ReworkLaws.limits c
limits (ab_boost c) = AlphaBetaLaws.limits c
limits (open_loop c) = record {
  trim_max = abs_ℕ c.residual_trim_mppb;
  lock_ns = pos 0;
  lock_hold = 1;
  outlier_max = 0;
}

abbrev pub lock_cnt : Controller → ℕ
lock_cnt (pll c) = c.lock_cnt
lock_cnt (integ_rework c) = c.lock_cnt
lock_cnt (ab_boost c) = c.lock_cnt
lock_cnt (open_loop c) = 0

abbrev pub reject_cnt : Controller → ℕ
reject_cnt (pll c) = c.reject_cnt
reject_cnt (integ_rework c) = c.reject_cnt
reject_cnt (ab_boost c) = c.reject_cnt
reject_cnt (open_loop c) = 0

pub step-IsSane : (c : Controller) (i : ControlInput) → IsSane c → IsSane (step c i).0
unfolding step
step-IsSane (pll c) i h = PllLaws.step-IsSane c i h
step-IsSane (integ_rework c) i h = ReworkLaws.step-IsSane c i h
step-IsSane (ab_boost c) i h = AlphaBetaLaws.step-IsSane c i h
step-IsSane (open_loop c) i h = tt

pub step_limits : (c : Controller) (i : ControlInput) → limits (step c i).0 ≡ limits c
unfolding step
step_limits (pll c) i = PllLaws.step_limits c i
step_limits (integ_rework c) i = ReworkLaws.step_limits c i
step_limits (ab_boost c) i = AlphaBetaLaws.step_limits c i
step_limits (open_loop c) i = refl

pub step-IsWithin :
    (c : Controller) (i : ControlInput) → IsSane c → IsWithin (limits c).trim_max (step c i).1
unfolding step
step-IsWithin (pll c) i h = PllLaws.step-IsWithin c i h
step-IsWithin (integ_rework c) i h = ReworkLaws.step-IsWithin c i h
step-IsWithin (ab_boost c) i h = AlphaBetaLaws.step-IsWithin c i h
step-IsWithin (open_loop c) i h = ground arith

step_rejected :
    (c : Controller) (i : ControlInput)
    → (step c i).1.rejected ≡ true
    → (reject_cnt (step c i).0 ≡ reject_cnt c + 1) × (reject_cnt c < (limits c).outlier_max)
unfolding step
step_rejected (pll c) i h = PllLaws.step_rejected c i h
step_rejected (integ_rework c) i h = ReworkLaws.step_rejected c i h
step_rejected (ab_boost c) i h = AlphaBetaLaws.step_rejected c i h
step_rejected (open_loop c) i h = cc

step_calm :
    (c : Controller) (i : ControlInput)
    → IsSane c
    → IsCalm (limits c) i
    → min (lock_cnt c + 1) (limits c).lock_hold ≤ lock_cnt (step c i).0
unfolding step
step_calm (pll c) i h calm = PllLaws.step_calm c i h calm
step_calm (integ_rework c) i h calm = ReworkLaws.step_calm c i h calm
step_calm (ab_boost c) i h calm = AlphaBetaLaws.step_calm c i h calm
step_calm (open_loop c) i h calm = absurd (ground (arith, calm))

locked_lem : (c : Controller) → IsSane c → (limits c).lock_hold ≤ lock_cnt c → is_locked c ≡ true
unfolding is_locked
locked_lem (pll c) h enough = PllLaws.locked_lem c h enough
locked_lem (integ_rework c) h enough = ReworkLaws.locked_lem c h enough
locked_lem (ab_boost c) h enough = AlphaBetaLaws.locked_lem c h enough
locked_lem (open_loop c) h enough = absurd (omega arith)

laws : Laws controller
laws = record {
  IsStable = IsSane;
  limits = limits;
  lock_cnt = lock_cnt;
  reject_cnt = reject_cnt;
  step-IsStable = step-IsSane;
  step_limits = step_limits;
  step-IsWithin = step-IsWithin;
  step_rejected = step_rejected;
  step_calm = step_calm;
  locked_lem = locked_lem;
}

-- For any loop in a sane state and any list of edges, every output of the run has its trim within
-- the loop's limit (for the open loop, its seed), its phase correction within twice 100 ms, and
-- no correction where the edge is not applied.
pub outputs-IsWithin :
    (c : Controller) (inputs : List ControlInput)
    → IsSane c
    → All (IsWithin (limits c).trim_max) (run controller c inputs).1
unfolding laws
outputs-IsWithin c inputs h = run-IsWithin controller laws c inputs h

-- For any loop whose count of rejections is within its limit, a run of edges that are all
-- rejected as outliers is, with the rejections before it, no longer than the limit.
pub rejections_end :
    (c : Controller) (inputs : List ControlInput)
    → reject_cnt c ≤ (limits c).outlier_max
    → All (λ o. o.rejected ≡ true) (run controller c inputs).1
    → reject_cnt c + length inputs ≤ (limits c).outlier_max
unfolding laws
rejections_end c inputs h all = run_rejected controller laws c inputs h all

-- For any loop in a sane state, a run of valid edges within the lock window, as many as the lock
-- asks for, ends locked.
pub calm_locks :
    (c : Controller) (inputs : List ControlInput)
    → IsSane c
    → All (IsCalm (limits c)) inputs
    → (limits c).lock_hold ≤ length inputs
    → is_locked (run controller c inputs).0 ≡ true
unfolding laws
calm_locks c inputs h calm enough = run_locks controller laws c inputs h calm enough
