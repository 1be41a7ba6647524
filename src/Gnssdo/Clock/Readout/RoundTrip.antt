-- ===== src/Gnssdo/Clock/Readout/RoundTrip.antt =====
-- A tick that is computed for an instant is read back as that instant, up to the drift of its drift.
use pico_gnss.Base.{ℕ, ◌+◌, ◌*◌, ◌/◌, ◌^◌, ◌≤◌, ◌<◌, ◌≡◌, arith, some}
use pico_gnss.Base.Int.{ℤ, pos, abs_ℕ, ◌+ℤ◌, ◌-ℤ◌, ◌/ℤ◌, int_laws, trunc_parts, parts_apart}
use pico_gnss.Base.Int.Scale.{◌×ℤ◌, to_i64_lem}
use pico_gnss.Base.Int.Product.{abs-mul, add-mul_ℤ}
use pico_gnss.Gnssdo.Clock.{DisciplinedClock}
use pico_gnss.Gnssdo.Clock.Readout.{
  drift_of, corrected, mppb_scale, now_from_capture_ns, capture_ns_for_unix_ns,
}
use pico_gnss.Gnssdo.Clock.Readout.Order.{drift_of_lem}

-- The quotients of two numbers differ by that of their distance, and two at most.
scaled_near :
    (a b : ℤ) → abs_ℕ (a /ℤ mppb_scale -ℤ b /ℤ mppb_scale) ≤ abs_ℕ (a -ℤ b) / mppb_scale + 2
scaled_near a b = omega (
  int_laws,
  trunc_parts a mppb_scale (omega arith),
  trunc_parts b mppb_scale (omega arith),
  parts_apart (a -ℤ b),
  parts_apart (a /ℤ mppb_scale -ℤ b /ℤ mppb_scale),
)

capture_lem :
    (s : DisciplinedClock) (epoch tick : ℕ) (unix_ns : ℤ)
    → s.epoch_capture_ns ≡ some epoch
    → s.epoch_unix_ns ≡ some unix_ns
    → epoch < 2 ^ 63
    → tick < 2 ^ 63
    → now_from_capture_ns s tick ≡ some (unix_ns +ℤ corrected s (pos tick -ℤ pos epoch))
unfolding now_from_capture_ns
capture_lem s epoch tick unix_ns eq eu fits fits' =
    rw (eq, eu) (ground (arith, to_i64_lem (pos tick), to_i64_lem (pos epoch)))

tick_lem :
    (s : DisciplinedClock) (epoch tick : ℕ) (unix_ns at : ℤ)
    → s.epoch_capture_ns ≡ some epoch
    → s.epoch_unix_ns ≡ some unix_ns
    → epoch < 2 ^ 63
    → capture_ns_for_unix_ns s at ≡ some (pos tick)
    → pos tick -ℤ pos epoch ≡ (at -ℤ unix_ns) +ℤ drift_of s.freq_mppb (at -ℤ unix_ns)
unfolding capture_ns_for_unix_ns
tick_lem s epoch tick unix_ns at eq eu fits is_tick =
    let dt = at -ℤ unix_ns in
    let same : pos epoch +ℤ (dt +ℤ drift_of s.freq_mppb dt) ≡ pos tick =
      ground (arith, eq, eu, is_tick, to_i64_lem (pos epoch)) in
    rw (← same) (omega int_laws)

-- The drift of a time and its own drift.
drift_near :
    (f d : ℤ)
    → abs_ℕ f ≤ mppb_scale
    → abs_ℕ d < 2 ^ 63
    → abs_ℕ (d +ℤ drift_of f d) < 2 ^ 63
    → abs_ℕ (drift_of f d -ℤ drift_of f (d +ℤ drift_of f d))
      ≤ abs_ℕ (drift_of f d) * abs_ℕ f / mppb_scale + 2
drift_near f d h fits fits' =
    let e = drift_of f d in
    let y = d +ℤ e in
    let apart : abs_ℕ (d ×ℤ f -ℤ y ×ℤ f) ≡ abs_ℕ e * abs_ℕ f = rw (add-mul_ℤ d e f) (
      omega (
        int_laws,
        abs-mul e f,
        parts_apart (e ×ℤ f),
        parts_apart (d ×ℤ f -ℤ (d ×ℤ f +ℤ e ×ℤ f)),
      )) in
    let near = scaled_near (d ×ℤ f) (y ×ℤ f) in
    ground (arith, drift_of_lem f d h fits, drift_of_lem f y h fits', apart, near)

-- For a level of at most 10^12 milli-ppb and times that fit in 63 bits, the tick that
-- `capture_ns_for_unix_ns` gives for an instant is read back by `now_from_capture_ns` as that
-- instant, up to the drift of the drift, in whole nanoseconds, and two.
pub now-capture :
    (s : DisciplinedClock) (epoch tick : ℕ) (unix_ns at : ℤ)
    → abs_ℕ s.freq_mppb ≤ mppb_scale
    → s.epoch_capture_ns ≡ some epoch
    → s.epoch_unix_ns ≡ some unix_ns
    → epoch < 2 ^ 63
    → tick < 2 ^ 63
    → abs_ℕ (at -ℤ unix_ns) < 2 ^ 63
    → capture_ns_for_unix_ns s at ≡ some (pos tick)
    → (t : ℤ) × (now_from_capture_ns s tick ≡ some t)
      × (abs_ℕ (t -ℤ at)
          ≤ abs_ℕ (drift_of s.freq_mppb (at -ℤ unix_ns)) * abs_ℕ s.freq_mppb / mppb_scale + 2)
unfolding corrected
now-capture s epoch tick unix_ns at small eq eu fits fits' near is_tick =
    let f = s.freq_mppb in
    let dt = at -ℤ unix_ns in
    let e = drift_of f dt in
    let elapsed = tick_lem s epoch tick unix_ns at eq eu fits is_tick in
    let within : abs_ℕ (dt +ℤ e) < 2 ^ 63 =
      rw (← elapsed) (omega (int_laws, parts_apart (pos tick -ℤ pos epoch))) in
    let off : unix_ns +ℤ (dt +ℤ e -ℤ drift_of f (dt +ℤ e)) -ℤ at ≡ e -ℤ drift_of f (dt +ℤ e) =
      omega int_laws in
    (
      unix_ns +ℤ corrected s (dt +ℤ e),
      rw (capture_lem s epoch tick unix_ns eq eu fits fits', elapsed),
      rw off (drift_near f dt small near within),
    )
