-- ===== src/Gnssdo/Examples/Servo.antt =====
-- The theorems about the loops at concrete inputs.
use pico_gnss.Base.{◌+◌, ◌≤◌, ◌<◌, ◌^◌, ◌≡◌, refl, arith, true, false, List, [], ◌∷◌, All, length}
use pico_gnss.Base.Int.{ℤ, pos, negsuc, abs_ℕ}
use pico_gnss.Gnssdo.Control.{ControlInput}
use pico_gnss.Gnssdo.Control.Runs.{run, IsWithin}
use pico_gnss.Gnssdo.Pll
use pico_gnss.Gnssdo.Pll.{PhaseLockLoop}
use pico_gnss.Gnssdo.Pll.Bounds.{IsStable}
use pico_gnss.Gnssdo.Pll.Range.{wrapped_trim, wrapped_damping, edge_fits}
use pico_gnss.Gnssdo.AlphaBeta
use pico_gnss.Gnssdo.AlphaBeta.{AlphaBetaBoost}
use pico_gnss.Gnssdo.AlphaBeta.Backstop.{boost_ends}
use pico_gnss.Gnssdo.Controllers.{pll, ab_boost, controller, step, start_segment, is_locked}
use pico_gnss.Gnssdo.Controllers.Laws.{
  IsSane, reject_cnt, outputs-IsWithin, rejections_end, calm_locks,
}
use pico_gnss.Gnssdo.Controllers.Segments.{no_error, first_edge}

abbrev edge : ℤ → ControlInput
edge err_ns = record { err_ns = err_ns; valid = true }

abbrev lost : ControlInput
lost = record { err_ns = pos 0; valid = false }

abbrev idle : PhaseLockLoop
idle = Pll.with_config Pll.default_pll

idle-IsStable : IsStable idle
idle-IsStable = record {
  lock_le = omega arith;
  reject_le = omega arith;
  trim_le = omega arith;
  hist_le = omega arith;
  hist_length = refl;
}

idle-IsSane : IsSane (pll idle)
idle-IsSane = record { stable = idle-IsStable; window = omega arith; hold_fits = omega arith }

abbrev mixed : List ControlInput
mixed = edge (pos 70_000) ∷ lost ∷ edge (negsuc 350) ∷ []

outputs-IsWithin_example : All (IsWithin 3_000_000) (run controller (pll idle) mixed).1
outputs-IsWithin_example = outputs-IsWithin (pll idle) mixed idle-IsSane

edge_fits_example :
    (Pll.integrate idle (pos 70_000) (Pll.predicted idle (pos 70_000))
      ≡ wrapped_trim idle (pos 70_000) (Pll.predicted idle (pos 70_000)))
    × (Pll.d_term idle (Pll.predicted idle (pos 70_000))
        ≡ wrapped_damping idle (Pll.predicted idle (pos 70_000)))
    × (abs_ℕ (Pll.predicted idle (pos 70_000)) ≤ 2 ^ 53)
    × (abs_ℕ (Pll.update idle (pos 70_000) true).0.last_pred ≤ 2 ^ 53)
edge_fits_example =
    edge_fits idle (pos 70_000) true idle-IsStable (omega arith) (omega arith) (omega arith)

abbrev calm : List ControlInput
calm = edge (pos 10) ∷ edge (negsuc 20) ∷ edge (pos 999) ∷ edge (pos 0) ∷ edge (pos 5) ∷ []

calm_locks_example : is_locked (run controller (pll idle) calm).0 ≡ true
calm_locks_example =
    calm_locks (pll idle) calm idle-IsSane
      ((refl, refl), ((refl, refl), ((refl, refl), ((refl, refl), ((refl, refl), tt)))))
      (omega arith)

-- A locked observer, and two spikes of 9 µs.
abbrev locked : AlphaBetaBoost
locked = record (AlphaBeta.with_config AlphaBeta.default_boost) { lock_cnt = 5 }

abbrev spikes : List ControlInput
spikes = edge (pos 9_000) ∷ edge (negsuc 9_500) ∷ []

rejections_end_example : reject_cnt (ab_boost locked) + length spikes ≤ 12
unfolding run step AlphaBeta.step AlphaBeta.is_outlier AlphaBeta.is_locked
rejections_end_example = rejections_end (ab_boost locked) spikes (omega arith) (refl, (refl, tt))

-- An observer in its boost, behind the third edge.
abbrev boosting : AlphaBetaBoost
boosting = record (AlphaBeta.with_config AlphaBeta.default_boost) {
  boost = record { boosting = true; boost_edges = 3; exit_cnt = 0 };
}

boost_ends_example : 3 + length (edge (pos 5_000) ∷ lost ∷ []) < boosting.cfg.boost_max_edges
unfolding run AlphaBeta.step AlphaBeta.tick_boost_backstop AlphaBeta.next_boost AlphaBeta.is_outlier
    AlphaBeta.is_locked
boost_ends_example =
    boost_ends boosting (edge (pos 5_000)) (lost ∷ []) (omega arith) refl (refl, (refl, tt))

first_edge_example :
    ((step
        (start_segment (pll idle) (record { residual_trim_mppb = pos 1234 }))
        no_error).1.trim_mppb
      ≡ pos 1234)
    × ((step
          (start_segment (pll idle) (record { residual_trim_mppb = pos 1234 }))
          no_error).1.pcorr_ns
        ≡ pos 0)
    × ((step
          (start_segment (pll idle) (record { residual_trim_mppb = pos 1234 }))
          no_error).1.applied
        ≡ true)
first_edge_example = first_edge (pll idle) (pos 1234) (omega arith)

-- The loop without an integral term drops what it is seeded with.
abbrev p_loop : PhaseLockLoop
p_loop = Pll.with_config Pll.p_only

p_loop_drops :
    (step
      (start_segment (pll p_loop) (record { residual_trim_mppb = pos 1234 }))
      no_error).1.trim_mppb
    ≡ pos 0
unfolding step start_segment Pll.step Pll.update Pll.is_outlier Pll.is_locked Pll.integrate
    Pll.start_segment
p_loop_drops = refl
