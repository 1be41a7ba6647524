-- ===== src/PicoGnss/Examples.antt =====
-- The theorems about the output's firmware at concrete inputs.
use pico_gnss.Base.{All, ◌-◌, ◌*◌, ℕ, ◌≤◌, ◌≡◌, refl, arith, true, some, List, [], ◌∷◌, length}
use pico_gnss.Base.Int.{abs_ℕ, to_i32, ◌+ℤ◌, ◌-ℤ◌, ◌/ℤ◌, rem_euclid}
use pico_gnss.RpPps.Capture.{wrapping_sub}
use pico_gnss.RpPps.Phase.{sum_lags, calibrate_loopback_offset}
use pico_gnss.PicoNtp.Link.{Uart, UartRead, failed, send_pmtk, pmtk_line}
use pico_gnss.PicoGnss.Mt3333.{pmtk_init, send_all, configure}
use pico_gnss.PicoGnss.Recalibration.{
  RecalRound, recal_k, evaluate, collect, spread, lowest, highest,
}
use pico_gnss.PicoGnss.Servo.{servo_run, first_servo, ServoInput}
use pico_gnss.PicoGnss.Servo.Slew.{distance, slews, slews_arrive}
use pico_gnss.PicoGnss.Servo.Outputs.{IsAsked, servo_run_limits}
use pico_gnss.Gnssdo.Clock.{DisciplinedClock, default_clock, with_config}
use pico_gnss.PicoGnss.Recalibration.Bounds.{recal_k_near}

abbrev silent_port : Uart → List UartRead
silent_port u = failed ∷ []

abbrev port : Uart
port = record { baud = 115_200; written = []; listened = 0 }

-- All the commands of the start fit their line.
all_sent : length ((configure port).0.written) ≡ length pmtk_init
unfolding configure send_all send_pmtk pmtk_line
all_sent = refl

-- A round with a pair of counters.
abbrev pair : ℕ → ℕ → RecalRound
pair c0 c2 = record { c2 = some c2; published = true; c0 = c0 }

-- The counters have moved by five ticks: the first round is dropped, and the others agree.
abbrev rounds : List RecalRound
rounds =
    pair 1_000 900
    ∷ pair 62_501_105 62_501_000
    ∷ pair 125_001_106 125_001_000
    ∷ pair 187_501_105 187_501_000
    ∷ []

moved : recal_k 100 rounds ≡ 105
unfolding recal_k evaluate collect spread lowest highest calibrate_loopback_offset sum_lags ◌+ℤ◌
    ◌-ℤ◌ ◌/ℤ◌ rem_euclid
moved = refl

recal_k_near_example : abs_ℕ (to_i32 (wrapping_sub (recal_k 100 rounds) 100)) ≤ 64
recal_k_near_example = recal_k_near 100 rounds (omega arith)

-- Three edges bring the offset back over the zero of the counter.
slews_arrive_example :
    (distance (slews 2 2 4_294_967_292) (slews 1 2 4_294_967_292) ≤ 2)
    × (distance 4_294_967_292 (slews 1 2 4_294_967_292) ≡ distance 4_294_967_292 2 - 2 * 1)
    × (slews 3 2 4_294_967_292 ≡ 4_294_967_292)
slews_arrive_example = slews_arrive 1 3 2 4_294_967_292 (omega arith) (omega arith) (omega arith)

-- A paired edge, 9 ticks late, and one whose reference is missing.
abbrev paired_edge : ServoInput
paired_edge = record {
  x = 62_501_000;
  cur_gen = 8;
  c0 = 62_501_114;
  temp_raw = 880;
  rounds = rounds;
  gen_after = 12;
}

abbrev lost_edge : ServoInput
lost_edge = record paired_edge { x = 125_001_000 }

abbrev fresh_clock : DisciplinedClock
fresh_clock = with_config default_clock

servo_run_limits_example : All (IsAsked 3_000_000) (
    servo_run 125_000_000 5
      (first_servo 5 105)
      ((fresh_clock, paired_edge) ∷ (fresh_clock, lost_edge) ∷ []))
servo_run_limits_example =
    servo_run_limits 125_000_000 5 105 ((fresh_clock, paired_edge) ∷ (fresh_clock, lost_edge) ∷ [])
