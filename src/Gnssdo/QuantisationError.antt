-- ===== src/Gnssdo/QuantisationError.antt =====
-- gnssdo/src/qerr.rs: the quantisation error of a timing receiver, taken off the measurements.
-- The sums of `i64` are in ℤ: an error is an `i32` in picoseconds.
pub mod Rounding
use pico_gnss.Base.{ℕ, Option, none, some, if◌then◌else◌}
use pico_gnss.Base.Int.{ℤ, pos, negsuc, ◌+ℤ◌, ◌-ℤ◌, ◌/ℤ◌, leb_ℤ}

pub ps_to_ns_round : ℤ → ℤ
ps_to_ns_round ps =
    let bias = if leb_ℤ (pos 0) ps then pos 500 else negsuc 499 in (ps +ℤ bias) /ℤ 1000

pub correct_phase_ns : ℤ → ℤ → ℤ
correct_phase_ns raw_phase_ns qerr_ps = raw_phase_ns -ℤ ps_to_ns_round qerr_ps

pub correct_interval_ns : ℤ → ℤ → ℤ → ℤ
correct_interval_ns raw_interval_ns qerr_prev_ps qerr_now_ps =
    raw_interval_ns -ℤ ps_to_ns_round (qerr_now_ps -ℤ qerr_prev_ps)

pub record QErrCorrector : Type 0 where
  pub prev_qerr_ps : Option ℤ

abbrev pub new : QErrCorrector
new = record { prev_qerr_ps = none }

-- The method `QErrCorrector::correct_interval_ns`.
pub correct_next : QErrCorrector → ℤ → ℤ → QErrCorrector × ℤ
correct_next self raw_interval_ns qerr_now_ps = (
  record { prev_qerr_ps = some qerr_now_ps },
  elim self.prev_qerr_ps [
    | none ↦ raw_interval_ns
    | some prev ↦ correct_interval_ns raw_interval_ns prev qerr_now_ps
  ],
)

abbrev pub reset : QErrCorrector → QErrCorrector
reset self = record { prev_qerr_ps = none }
