-- ===== src/PicoGnss/Servo.antt =====
-- pico-gnss/src/main.rs: the stages, the choice of the loop, and an edge of `gen_capture_task` with
-- the experiments off, as their constants are. The captures and the shared words are inputs.
pub mod Slew
pub mod Outputs
use pico_gnss.Base.{
  ℕ, ◌+◌, ◌*◌, ◌/◌, ◌%◌, ◌^◌, ltb, leb, if◌then◌else◌, Bool, not, true, false, ◌&&◌, ◌||◌, Option,
  none, some, List, [], ◌∷◌, ◌==◌,
}
use pico_gnss.Base.Int.{ℤ, pos, ◌+ℤ◌, ◌-ℤ◌, ltb_ℤ, abs_ℕ, to_i32, to_i64, to_u32}
use pico_gnss.Base.Int.Scale.{clamp_about}
use pico_gnss.RpPps.Capture.{wrapping_sub, interval_ns}
use pico_gnss.RpPps.Phase.{loopback_phase_ns, loopback_raw_lag_ticks}
use pico_gnss.Gnssdo.Control.{ControlOutput}
use pico_gnss.Gnssdo.Pll
use pico_gnss.Gnssdo.Pll.{PhaseLockLoopConfig, default_pll}
use pico_gnss.Gnssdo.Controllers
use pico_gnss.Gnssdo.Controllers.{Controller, pll, open_loop}
use pico_gnss.Gnssdo.Clock.{DisciplinedClock, update_temp}
use pico_gnss.Gnssdo.Clock.Readout.{steering_freq_mppb}
use pico_gnss.PicoGnss.Recalibration.{RecalRound, recal_k}

abbrev pub phase_servo : ℕ → Bool
phase_servo s = leb 3 s

abbrev pub recal_on : ℕ → Bool
recal_on s = leb 4 s

-- `RECAL_EDGES`, and `u32::MAX` for never.
abbrev pub recal_eff : ℕ → ℕ
recal_eff s = if recal_on s then 150 else 4_294_967_295

unfoldable pub exp_cfg : ℤ → ℤ → ℤ → ℕ → PhaseLockLoopConfig
exp_cfg i_den d_den kp_inv smith_edges = record default_pll {
  i_den = i_den;
  calm_ns = pos 1_000;
  i_den_disturbed_shift = 0;
  d_den = d_den;
  kp_inv = kp_inv;
  smith_edges = smith_edges;
}

-- The row of `CTRL_GRID`: the two divisors. The others are the same in all rows.
unfoldable pub ctrl_grid : ℕ → ℤ × ℤ
ctrl_grid idx =
    if idx == 0
    then (pos 512, pos 16)
    else if idx == 1
    then (pos 1024, pos 32)
    else (pos 2048, pos 64)

unfoldable pub make_controller : ℕ → Controller
make_controller idx =
    let (i_den, d_den) = ctrl_grid (idx % 3) in
    pll (Pll.with_config (exp_cfg i_den d_den (pos 0) 1))

-- The step of `k` towards the last measurement, by at most `RECAL_K_SLEW_TICKS`.
unfoldable pub slew : ℕ → ℕ → ℕ
slew k k_target =
    let diff = clamp_about (to_i32 (wrapping_sub k_target k)) 2 in
    if k == k_target then k else to_u32 (pos k +ℤ diff)

-- The locals of the task that live over the edges.
pub record ServoTask : Type 0 where
  pub controller : Controller
  pub last_x : Option ℕ
  pub last_gen : ℕ
  pub k : ℕ
  pub k_target : ℕ
  pub edges_since_recal : ℕ

-- The locals before the first edge, with the offset of the calibration.
unfoldable pub first_servo : ℕ → ℕ → ServoTask
first_servo stage k = record {
  controller =
      if phase_servo stage
      then make_controller 0
      else open_loop (record { residual_trim_mppb = pos 0 });
  last_x = none;
  last_gen = 0;
  k = k;
  k_target = k;
  edges_since_recal = 0;
}

-- What an edge reads: the counter of the output, the generation and the counter of the reference,
-- the temperature; and, where it measures the offset again, the rounds and the generation then.
pub record ServoInput : Type 0 where
  pub x : ℕ
  pub cur_gen : ℕ
  pub c0 : ℕ
  pub temp_raw : ℕ
  pub rounds : List RecalRound
  pub gen_after : ℕ

-- `sane`: an interval within 0.3 s of a second.
unfoldable pub is_sane : ℕ → Option ℕ → ℕ → Bool
is_sane clk none x = false
is_sane clk (some lx) x =
    ltb (abs_ℕ (to_i64 (pos (interval_ns lx x clk)) -ℤ pos 1_000_000_000)) 300_000_000

-- `paired`: the edges of a pair are at most 10 ms apart.
unfoldable pub is_paired : ℕ → ℕ → ℕ → ℕ → Bool
is_paired clk c0 x k = leb (abs_ℕ (loopback_raw_lag_ticks c0 x k)) (clk / 200)

-- `valid`, with the offset of this edge.
unfoldable pub is_valid : ℕ → ℕ → ServoTask → ServoInput → ℕ → Bool
is_valid clk stage s i k =
    (wrapping_sub i.cur_gen s.last_gen == 1)
    && is_sane clk s.last_x i.x
    && not (i.c0 == 0)
    && (not (phase_servo stage) || is_paired clk i.c0 i.x k)

-- The count behind an edge, and whether it asks for a measurement.
unfoldable pub count_recal : ℕ → Bool → ℕ → ℕ × Bool
count_recal stage locked n =
    let edges = (n + 1) % 2 ^ 32 in
    if locked then if leb (recal_eff stage) edges then (0, true) else (edges, false) else (0, false)

-- The task behind the edge: where the offset is measured, the capture before it is forgotten.
unfoldable pub recalibrate : ServoTask → ServoInput → ℕ × Bool → ServoTask
recalibrate s i (edges, due) =
    if due
    then record s {
      edges_since_recal = edges;
      k_target = recal_k s.k_target i.rounds;
      last_x = none;
      last_gen = i.gen_after;
    }
    else record s { edges_since_recal = edges }

-- An edge: the task and the clock behind it, and the frequency and the phase for the next period.
unfoldable pub servo_edge :
    ℕ → ℕ → ServoTask → DisciplinedClock → ServoInput → ServoTask × DisciplinedClock × ℤ × ℤ
servo_edge clk stage s clock i =
    let k = slew s.k s.k_target in
    let err_ns = loopback_phase_ns i.c0 i.x k clk in
    let (controller, u) =
      Controllers.step s.controller
        (record { err_ns = err_ns; valid = is_valid clk stage s i k }) in
    let steer = steering_freq_mppb clock in
    let next : ServoTask = record s {
      controller = controller;
      last_x = some i.x;
      last_gen = i.cur_gen;
      k = k;
    } in
    (
      recalibrate next i (count_recal stage u.locked s.edges_since_recal),
      if u.locked then update_temp clock (pos i.temp_raw) else clock,
      steer +ℤ u.trim_mppb,
      u.pcorr_ns,
    )

-- Edges in a row: the clock at each edge and what the edge asks for. Between two edges the other
-- tasks move the clock, so that each edge brings its own.
unfoldable pub servo_run :
    ℕ → ℕ → ServoTask → List (DisciplinedClock × ServoInput) → List (DisciplinedClock × ℤ × ℤ)
servo_run clk stage s [] = []
servo_run clk stage s ((clock, i) ∷ edges) =
    let (next, _, freq_mppb, pcorr_ns) = servo_edge clk stage s clock i in
    (clock, freq_mppb, pcorr_ns) ∷ servo_run clk stage next edges
