-- ===== src/RpPps/Output.antt =====
-- rp-pps/src/lib.rs: the period words of the output, and the dithers that carry a fraction of a
-- cycle or of a tick. A product of `i64`, and the sum it goes into, keep their wrap-around.
pub mod Dither
pub mod Drift
use pico_gnss.Base.{ℕ, ◌+◌, ◌-◌, ◌*◌, ◌/◌, ◌%◌, ◌^◌}
use pico_gnss.Base.Int.{ℤ, pos, ◌+ℤ◌, ◌-ℤ◌, ◌*ℤ◌, ◌/ℤ◌, div_euclid, rem_euclid, to_u32, to_i64}

abbrev pub output_overhead_cycles : ℕ
output_overhead_cycles = 7

-- `1_000_000_000_000`, the scale of the fraction.
abbrev pub frac_scale : ℕ
frac_scale = 1_000_000_000_000

pub output_high_cycles : ℕ → ℕ → ℕ
output_high_cycles clk_hz width_ns = width_ns * clk_hz / 1_000_000_000 % 2 ^ 32

-- The two subtractions on `u32` wrap below zero.
pub output_period_cycles : ℕ → ℕ → ℕ
output_period_cycles clk_hz high_cycles =
    to_u32 (pos clk_hz -ℤ pos output_overhead_cycles -ℤ pos high_cycles)

pub output_period_cycles_ppb : ℕ → ℤ → ℕ → ℕ
output_period_cycles_ppb clk_hz ppb high_cycles =
    let adj = to_i64 (ppb *ℤ clk_hz) /ℤ 1_000_000_000 in
    to_u32 (pos clk_hz -ℤ pos output_overhead_cycles -ℤ pos high_cycles +ℤ adj)

pub record OutputPeriodDither : Type 0 where
  pub frac_acc : ℤ

abbrev pub new_period_dither : OutputPeriodDither
new_period_dither = record { frac_acc = pos 0 }

pub next_period : OutputPeriodDither → ℕ → ℤ → ℤ → ℕ → OutputPeriodDither × ℕ
next_period self clk_hz freq_mppb phase_corr_ns high_cycles =
    let acc = to_i64 (self.frac_acc +ℤ freq_mppb *ℤ clk_hz) in
    let freq_cycles = div_euclid acc frac_scale in
    let period =
      pos clk_hz
      -ℤ pos output_overhead_cycles
      -ℤ pos high_cycles
      +ℤ freq_cycles
      -ℤ to_i64 (phase_corr_ns *ℤ clk_hz) /ℤ 1_000_000_000 in
    (record { frac_acc = pos (rem_euclid acc frac_scale) }, to_u32 period)

pub record NaivePeriodDither : Type 0 where
  pub frac_acc : ℤ

abbrev pub new_ticks_dither : NaivePeriodDither
new_ticks_dither = record { frac_acc = pos 0 }

pub next_ticks : NaivePeriodDither → ℕ → ℤ → NaivePeriodDither × ℕ
next_ticks self tick_hz freq_mppb =
    let acc = to_i64 (self.frac_acc +ℤ freq_mppb *ℤ tick_hz) in
    let freq_ticks = div_euclid acc frac_scale in
    (record { frac_acc = pos (rem_euclid acc frac_scale) }, to_u32 (pos tick_hz +ℤ freq_ticks))
