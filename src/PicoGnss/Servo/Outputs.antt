-- ===== src/PicoGnss/Servo/Outputs.antt =====
-- What an edge of `gen_capture_task` asks of the output.
use pico_gnss.Base.{
  Bool, if◌then◌else◌, true, false, ℕ, ◌+◌, ◌≤◌, ◌≡◌, arith, List, [], ◌∷◌, All, refl, ap,
}
use pico_gnss.Base.Int.{ℤ, pos, ◌+ℤ◌, ◌-ℤ◌, abs_ℕ, int_laws, parts_apart}
use pico_gnss.Gnssdo.Control.{ControlInput}
use pico_gnss.Gnssdo.Controllers
use pico_gnss.Gnssdo.Controllers.{Controller, open_loop}
use pico_gnss.Gnssdo.Control.Runs.{Limits}
use pico_gnss.Gnssdo.Controllers.Laws.{IsSane, limits, step-IsSane, step_limits, step-IsWithin}
use pico_gnss.Gnssdo.Clock.{DisciplinedClock}
use pico_gnss.Gnssdo.Clock.Readout.{steering_freq_mppb}
use pico_gnss.Gnssdo.Clock.Readout.Seconds.{steering_near}
use pico_gnss.PicoGnss.Servo.{
  ServoTask, ServoInput, recalibrate, servo_edge, servo_run, first_servo, phase_servo,
  make_controller, exp_cfg,
}

apart_add :
    (steer level trim : ℤ) (a b : ℕ)
    → abs_ℕ (steer -ℤ level) ≤ a
    → abs_ℕ trim ≤ b
    → abs_ℕ (steer +ℤ trim -ℤ level) ≤ a + b
apart_add steer level trim a b h g = omega (
  int_laws,
  h,
  g,
  parts_apart (steer -ℤ level),
  parts_apart trim,
  parts_apart (steer +ℤ trim -ℤ level),
)

-- The loop is in a sane state and keeps its trim within a limit.
abbrev HasLimit : ℕ → Controller → Type 0
HasLimit limit c = IsSane c × ((limits c).trim_max ≤ limit)

step-HasLimit :
    (limit : ℕ) (c : Controller) (i : ControlInput)
    → HasLimit limit c
    → HasLimit limit (Controllers.step c i).0
step-HasLimit limit c i (sane, h) =
    (step-IsSane c i sane, omega (arith, h, ap (λ (l : Limits). l.trim_max) (step_limits c i)))

recalibrate-controller :
    (s : ServoTask) (i : ServoInput) (r : ℕ × Bool) → (recalibrate s i r).controller ≡ s.controller
unfolding recalibrate
recalibrate-controller s i (edges, true) = refl
recalibrate-controller s i (edges, false) = refl

-- The loops of the experiments start in a sane state.
pub make_controller-IsSane : (idx : ℕ) → IsSane (make_controller idx)
unfolding make_controller exp_cfg
make_controller-IsSane idx = record {
  stable = record {
    lock_le = omega arith;
    reject_le = omega arith;
    trim_le = omega arith;
    hist_le = omega arith;
    hist_length = refl;
  };
  window = omega arith;
  hold_fits = omega arith;
}

make_controller_limit : (idx : ℕ) → (limits (make_controller idx)).trim_max ≤ 3_000_000
unfolding make_controller exp_cfg
make_controller_limit idx = omega arith

-- The frequency is near the level of the clock, and the phase correction is within 200 ms.
abbrev pub IsAsked : ℕ → DisciplinedClock × ℤ × ℤ → Type 0
IsAsked limit (clock, freq, pcorr) =
    (abs_ℕ (freq -ℤ clock.freq_mppb) ≤ clock.config.steer_ff_bound_mppb + limit)
    × (abs_ℕ pcorr ≤ 200_000_000)

edge_limits :
    (clk stage limit : ℕ) (s : ServoTask) (clock : DisciplinedClock) (i : ServoInput)
    → HasLimit limit s.controller
    → let (next, _, freq, pcorr) = servo_edge clk stage s clock i in
      IsAsked limit (clock, freq, pcorr) × HasLimit limit next.controller
unfolding servo_edge
edge_limits clk stage limit s clock i (h, same) = (
  (
    apart_add (steering_freq_mppb clock) clock.freq_mppb
        (Controllers.step s.controller _).1.trim_mppb clock.config.steer_ff_bound_mppb limit
        (steering_near clock) (omega (arith, same, (step-IsWithin s.controller _ h).0)),
    (step-IsWithin s.controller _ h).1,
  ),
  rw (recalibrate-controller _ i _) (step-HasLimit limit s.controller _ (h, same)),
)

run_limits :
    (clk stage limit : ℕ) (s : ServoTask) (edges : List (DisciplinedClock × ServoInput))
    → HasLimit limit s.controller
    → All (IsAsked limit) (servo_run clk stage s edges)
unfolding servo_run
run_limits clk stage limit s [] h = tt
run_limits clk stage limit s ((clock, i) ∷ edges) h =
    let (asked, kept) = edge_limits clk stage limit s clock i h in
    (asked, run_limits clk stage limit (servo_edge clk stage s clock i).0 edges kept)

first_servo-HasLimit : (stage k : ℕ) → HasLimit 3_000_000 (first_servo stage k).controller
unfolding first_servo
first_servo-HasLimit stage k =
    elim (phase_servo stage)
      as (λ (b : Bool).
        HasLimit 3_000_000
          (if b then make_controller 0 else open_loop (record { residual_trim_mppb = pos 0 }))) [
            | true ↦ (make_controller-IsSane 0, make_controller_limit 0)
            | false ↦ (tt, omega arith)
          ]

-- From the start of `gen_capture_task` in any stage, with any offset, at every edge of a run,
-- whatever the captures and the clock are: the frequency that is asked for is within the bound of
-- the steering and 3000 ppb of the level of the clock, and the phase correction is within 200 ms.
pub servo_run_limits :
    (clk stage k : ℕ) (edges : List (DisciplinedClock × ServoInput))
    → All (IsAsked 3_000_000) (servo_run clk stage (first_servo stage k) edges)
servo_run_limits clk stage k edges =
    run_limits clk stage 3_000_000 (first_servo stage k) edges (first_servo-HasLimit stage k)
