-- ===== src/Gnssdo/Clock/Readout/Order.antt =====
-- The time that is read never runs backwards within an epoch.
use pico_gnss.Base.{ℕ, ◌-◌, ◌*◌, ◌^◌, ◌≤◌, ◌<◌, ◌≡◌, arith, some}
use pico_gnss.Base.Int.{ℤ, pos, abs_ℕ, ◌+ℤ◌, ◌-ℤ◌, ◌/ℤ◌, ◌≤ℤ◌, int_laws, trunc_parts, parts_apart}
use pico_gnss.Base.Int.Scale.{◌×ℤ◌, to_i64_lem}
use pico_gnss.Base.Int.Product.{×ℤ_parts, abs-mul, add-mul_ℤ}
use native.Mathlib.Nat.{mul-le-mul_left}
use pico_gnss.Gnssdo.Clock.{DisciplinedClock, DisciplinedClockConfig}
use pico_gnss.Gnssdo.Clock.Readout.{drift_of, corrected, mppb_scale, now_from_query_ns}
use pico_gnss.Gnssdo.Clock.Gates.{Fits}
use pico_gnss.Gnssdo.Clock.Bounds.{level_bound}
use pico_gnss.Gnssdo.Clock.Reach.{Reach, Reach-bounds}

-- A number at most `k` scales further on has a quotient that is at most `k` further on.
scaled_step :
    (a b : ℤ) (k : ℕ) → b ≤ℤ a +ℤ pos (k * mppb_scale) → b /ℤ mppb_scale ≤ℤ a /ℤ mppb_scale +ℤ pos k
scaled_step a b k le = omega (
  int_laws,
  le,
  trunc_parts a mppb_scale (omega arith),
  trunc_parts b mppb_scale (omega arith),
  parts_apart a,
  parts_apart b,
)

-- No drift is longer than the time that it is of.
drift_le : (f d : ℤ) → abs_ℕ f ≤ mppb_scale → abs_ℕ ((d ×ℤ f) /ℤ mppb_scale) ≤ abs_ℕ d
drift_le f d h = omega (
  arith,
  trunc_parts (d ×ℤ f) mppb_scale (omega arith),
  parts_apart (d ×ℤ f),
  abs-mul d f,
  mul-le-mul_left (abs_ℕ d) h,
)

pub drift_of_lem :
    (f d : ℤ) → abs_ℕ f ≤ mppb_scale → abs_ℕ d < 2 ^ 63 → drift_of f d ≡ (d ×ℤ f) /ℤ mppb_scale
unfolding drift_of
drift_of_lem f d h fits =
    let le = drift_le f d h in to_i64_lem ((d ×ℤ f) /ℤ mppb_scale) (omega (arith, le, fits))

product_step :
    (f x : ℤ) (k : ℕ) → abs_ℕ f ≤ mppb_scale → (x +ℤ pos k) ×ℤ f ≤ℤ x ×ℤ f +ℤ pos (k * mppb_scale)
product_step f x k h =
    rw (add-mul_ℤ x (pos k) f) (omega (int_laws, ×ℤ_parts (pos k) f, mul-le-mul_left k h))

-- A longer time is a later one behind the correction.
pub corrected_mono :
    (s : DisciplinedClock) (x : ℤ) (k : ℕ)
    → abs_ℕ s.freq_mppb ≤ mppb_scale
    → abs_ℕ x < 2 ^ 63
    → abs_ℕ (x +ℤ pos k) < 2 ^ 63
    → corrected s x ≤ℤ corrected s (x +ℤ pos k)
unfolding corrected
corrected_mono s x k h fits fits' =
    let f = s.freq_mppb in
    let y = x +ℤ pos k in
    rw (drift_of_lem f x h fits, drift_of_lem f y h fits')
      (omega (int_laws, scaled_step (x ×ℤ f) (y ×ℤ f) k (product_step f x k h)))

pub now_lem :
    (s : DisciplinedClock) (epoch q : ℕ) (unix_ns : ℤ)
    → s.epoch_query_ns ≡ some epoch
    → s.epoch_unix_ns ≡ some unix_ns
    → epoch < 2 ^ 63
    → q < 2 ^ 63
    → now_from_query_ns s q ≡ some (unix_ns +ℤ corrected s (pos q -ℤ pos epoch))
unfolding now_from_query_ns
now_lem s epoch q unix_ns eq eu fits fits' =
    rw (eq, eu) (ground (arith, to_i64_lem (pos q), to_i64_lem (pos epoch)))

-- In every reachable state of a clock whose gates fit in `i64` and whose level bound is at most
-- 10^12 milli-ppb, with an epoch and readings below 2^63, a later query reads a time that is not
-- earlier.
pub now_mono :
    (c : DisciplinedClockConfig) (s : DisciplinedClock) (epoch earlier later : ℕ) (unix_ns : ℤ)
    → Fits c
    → level_bound c ≤ mppb_scale
    → Reach c s
    → s.epoch_query_ns ≡ some epoch
    → s.epoch_unix_ns ≡ some unix_ns
    → epoch < 2 ^ 63
    → earlier ≤ later
    → later < 2 ^ 63
    → (t : ℤ) × (u : ℤ) × (now_from_query_ns s earlier ≡ some t)
      × (now_from_query_ns s later ≡ some u)
      × (t ≤ℤ u)
now_mono c s epoch earlier later unix_ns h small r eq eu fits le fits' =
    let x = pos earlier -ℤ pos epoch in
    let y = pos later -ℤ pos epoch in
    let further : y ≡ x +ℤ pos (later - earlier) = omega int_laws in
    let in_time : corrected s x ≤ℤ corrected s y = rw further (
      corrected_mono s x (later - earlier) (omega (arith, small, Reach-bounds c s h r))
        (omega (int_laws, parts_apart x))
        (omega (int_laws, parts_apart (x +ℤ pos (later - earlier))))) in
    (
      unix_ns +ℤ corrected s x,
      unix_ns +ℤ corrected s y,
      now_lem s epoch earlier unix_ns eq eu fits (omega arith),
      now_lem s epoch later unix_ns eq eu fits fits',
      omega (int_laws, in_time),
    )
