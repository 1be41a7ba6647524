-- ===== src/Gnssdo/QuantisationError/Rounding.antt =====
-- The corrected intervals between the true edges.
use pico_gnss.Base.{◌*◌, ◌≤◌, arith, List, [], ◌∷◌, length, some}
use pico_gnss.Base.Int.{ℤ, pos, negsuc, abs_ℕ, ◌+ℤ◌, ◌-ℤ◌, ◌*ℤ◌, ◌/ℤ◌, int_laws, parts_apart}
use pico_gnss.Gnssdo.QuantisationError.{
  ps_to_ns_round, correct_interval_ns, QErrCorrector, correct_next,
}

-- Half a nanosecond at most, either way.
ps_to_ns_round_near : (ps : ℤ) → abs_ℕ (ps_to_ns_round ps *ℤ 1000 -ℤ ps) ≤ 500
unfolding ps_to_ns_round ◌+ℤ◌ ◌/ℤ◌ ◌-ℤ◌ ◌*ℤ◌
ps_to_ns_round_near (pos n) = ground arith
ps_to_ns_round_near (negsuc n) = ground arith

-- What the receiver measures for the edges: each interval of the true edges, in picoseconds, moved
-- by the errors of its two ends. The measurements are whole nanoseconds.
pub record Edge : Type 0 where
  pub interval_ns : ℤ
  pub qerr_ps : ℤ

-- The corrected intervals of a run, added up.
pub corrected : QErrCorrector → List Edge → ℤ
corrected c [] = pos 0
corrected c (e ∷ es) =
    (correct_next c e.interval_ns e.qerr_ps).1
    +ℤ corrected (correct_next c e.interval_ns e.qerr_ps).0 es

-- The measured intervals, added up, and the error of the last edge.
pub measured : List Edge → ℤ
measured [] = pos 0
measured (e ∷ es) = e.interval_ns +ℤ measured es

pub last_qerr : ℤ → List Edge → ℤ
last_qerr q [] = q
last_qerr q (e ∷ es) = last_qerr e.qerr_ps es

-- Over a run of edges behind an edge with the error `q`, the corrected intervals add up to the
-- measured ones less the last error and plus the first, within half a nanosecond for each edge.
pub corrected_near :
    (q : ℤ) (es : List Edge)
    → abs_ℕ (
        corrected (record { prev_qerr_ps = some q }) es *ℤ 1000
        -ℤ (measured es *ℤ 1000 -ℤ (last_qerr q es -ℤ q)))
      ≤ 500 * length es
unfolding corrected measured last_qerr correct_next correct_interval_ns
corrected_near q [] =
    omega
      (int_laws, parts_apart (q -ℤ q), parts_apart ((pos 0 *ℤ 1000) -ℤ (pos 0 *ℤ 1000 -ℤ (q -ℤ q))))
corrected_near q (e ∷ es) =
    let d = e.qerr_ps -ℤ q in
    let round = ps_to_ns_round d in
    let rest = corrected (record { prev_qerr_ps = some e.qerr_ps }) es in
    let all = (e.interval_ns -ℤ round +ℤ rest) *ℤ 1000 in
    let exact = (e.interval_ns +ℤ measured es) *ℤ 1000 -ℤ (last_qerr e.qerr_ps es -ℤ q) in
    omega (int_laws, ps_to_ns_round_near d, corrected_near e.qerr_ps es, parts_apart (all -ℤ exact))
