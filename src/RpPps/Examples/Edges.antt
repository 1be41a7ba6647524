-- ===== src/RpPps/Examples/Edges.antt =====
-- The theorems on captures, phases and periods.
use pico_gnss.Base.{◌+◌, ◌*◌, ◌≡◌, arith, [], ◌∷◌}
use pico_gnss.Base.Int.{pos, negsuc, ◌+ℤ◌, ◌≤ℤ◌}
use pico_gnss.RpPps.Capture.{new, observe}
use pico_gnss.RpPps.Capture.Timeline.{observe_all, total_ns, observe_all-edge_ns}
use pico_gnss.RpPps.Output.{frac_scale, new_ticks_dither}
use pico_gnss.RpPps.Output.Drift.{ticks_of, steered, ticks_of_drift}

observe_all-edge_ns_example :
    (observe_all (observe (new 125_000_000) 5).0 5 (62_500_000 ∷ 62_500_001 ∷ [])).edge_ns
    ≡ total_ns 125_000_000 (62_500_000 ∷ 62_500_001 ∷ [])
unfolding total_ns
observe_all-edge_ns_example =
    observe_all-edge_ns 125_000_000 5 (62_500_000 ∷ 62_500_001 ∷ []) (omega arith) (omega arith)
      (omega arith)

ticks_of_drift_example :
    (pos ((ticks_of new_ticks_dither 1_000_000 (pos 5_000_000 ∷ negsuc 700 ∷ [])).1 * frac_scale)
      ≤ℤ steered 1_000_000 (pos 5_000_000 ∷ negsuc 700 ∷ []))
    × (steered 1_000_000 (pos 5_000_000 ∷ negsuc 700 ∷ []) +ℤ pos 1
        ≤ℤ pos (
            ((ticks_of new_ticks_dither 1_000_000 (pos 5_000_000 ∷ negsuc 700 ∷ [])).1 + 1)
            * frac_scale))
ticks_of_drift_example =
    ticks_of_drift 1_000_000 (pos 5_000_000 ∷ negsuc 700 ∷ []) (omega arith) (omega arith)
