-- ===== src/Gnssdo/AlphaBeta/Backstop.antt =====
-- The boost ends, whatever the edges are.
use pico_gnss.Base.{◌+◌, ◌^◌, ◌≤◌, ◌<◌, ◌≡◌, arith, Bool, true, List, [], ◌∷◌, All, length, ap}
use pico_gnss.Base.Int.{ℤ}
use pico_gnss.Gnssdo.Control.{ControlInput}
use pico_gnss.Gnssdo.Control.Runs.{run}
use pico_gnss.Gnssdo.AlphaBeta.{
  AlphaBetaBoost, AlphaBetaBoostConfig, Boost, controller, step, tick_boost_backstop, next_boost,
}

-- One edge of a boost that goes on is counted, and the count is below the limit.
tick_counts :
    (c : AlphaBetaBoostConfig) (b : Boost)
    → c.boost_max_edges < 2 ^ 32
    → b.boosting ≡ true
    → (tick_boost_backstop c b).boosting ≡ true
    → (b.boost_edges + 1 ≤ (tick_boost_backstop c b).boost_edges)
      × ((tick_boost_backstop c b).boost_edges < c.boost_max_edges)
unfolding tick_boost_backstop
tick_counts c b fits on goes_on = ground arith

next_counts :
    (c : AlphaBetaBoostConfig) (b : Boost) (z innov : ℤ) (disturbed : Bool)
    → c.boost_max_edges < 2 ^ 32
    → b.boosting ≡ true
    → (next_boost c b z innov disturbed).boosting ≡ true
    → (b.boost_edges + 1 ≤ (next_boost c b z innov disturbed).boost_edges)
      × ((next_boost c b z innov disturbed).boost_edges < c.boost_max_edges)
unfolding next_boost
next_counts c b z innov disturbed fits on goes_on = ground arith

step_counts :
    (s : AlphaBetaBoost) (i : ControlInput)
    → s.cfg.boost_max_edges < 2 ^ 32
    → s.boost.boosting ≡ true
    → (step s i).1.dbg.state ≡ 1
    → (s.boost.boost_edges + 1 ≤ (step s i).0.boost.boost_edges)
      × ((step s i).0.boost.boost_edges < s.cfg.boost_max_edges)
      × ((step s i).0.boost.boosting ≡ true)
      × ((step s i).0.cfg ≡ s.cfg)
unfolding step
step_counts s i fits on goes_on = grind (arith, tick_counts, next_counts)

-- For a limit below 2^32, a boost that is on before a run of one or more edges, valid or not, and
-- reported on behind each of them, has had fewer edges than its limit: no run of edges latches
-- it.
pub boost_ends :
    (s : AlphaBetaBoost) (i : ControlInput) (inputs : List ControlInput)
    → s.cfg.boost_max_edges < 2 ^ 32
    → s.boost.boosting ≡ true
    → All (λ o. o.dbg.state ≡ 1) (run controller s (i ∷ inputs)).1
    → s.boost.boost_edges + length (i ∷ inputs) < s.cfg.boost_max_edges
unfolding run
boost_ends s i [] fits on all = omega (arith, step_counts s i fits on all.0)
boost_ends s i (j ∷ inputs) fits on all =
    let (counted, below, still, same) = step_counts s i fits on all.0 in
    let max_same : (step s i).0.cfg.boost_max_edges ≡ s.cfg.boost_max_edges =
      ap (λ (c : AlphaBetaBoostConfig). c.boost_max_edges) same in
    omega (
      arith,
      counted,
      max_same,
      boost_ends (step s i).0 j inputs (omega (arith, max_same, fits)) still all.1,
    )
