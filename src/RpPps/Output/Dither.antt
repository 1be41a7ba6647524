-- ===== src/RpPps/Output/Dither.antt =====
-- The dithers lose nothing: the fractions that are carried add up to whole cycles and ticks.
use pico_gnss.Base.{ℕ, ◌+◌, ◌*◌, ◌^◌, ◌<◌, ◌≤◌, ◌≡◌, arith}
use pico_gnss.Base.Int.{
  ℤ, pos, negsuc, pos_part, neg_part, ◌+ℤ◌, ◌-ℤ◌, ◌*ℤ◌, ◌/ℤ◌, abs_ℕ, div_euclid, rem_euclid, to_u32,
  to_i64, IsI64, int_laws, euclid_parts, parts_apart, parts_of_eq, *ℤ_parts,
}
use pico_gnss.Base.Int.Scale.{to_i64_lem}
use pico_gnss.RpPps.Output.{
  frac_scale, OutputPeriodDither, next_period, NaivePeriodDither, next_ticks,
}

-- A cast to `u32` keeps a number in its range.
to_u32-eq : (a : ℤ) → neg_part a ≡ 0 → pos_part a < 2 ^ 32 → pos (to_u32 a) ≡ a
unfolding rem_euclid
to_u32-eq a h k = ground arith

-- Where the period word is in the range of `u32`, the word, the pulse, the overhead and the phase
-- correction, with the fraction that is carried, make up exactly one second of cycles, the
-- steering and the fraction before.
pub next_period-eq :
    (d : OutputPeriodDither) (clk_hz : ℕ) (freq_mppb phase_corr_ns : ℤ) (high_cycles : ℕ)
    → let acc = to_i64 (d.frac_acc +ℤ freq_mppb *ℤ clk_hz) in
      let correction = to_i64 (phase_corr_ns *ℤ clk_hz) /ℤ 1_000_000_000 in
      let period =
        pos clk_hz -ℤ pos 7 -ℤ pos high_cycles +ℤ div_euclid acc frac_scale -ℤ correction in
      neg_part period ≡ 0
      → pos_part period < 2 ^ 32
      → (pos ((next_period d clk_hz freq_mppb phase_corr_ns high_cycles).1 + high_cycles + 7)
              +ℤ correction)
            *ℤ frac_scale
          +ℤ (next_period d clk_hz freq_mppb phase_corr_ns high_cycles).0.frac_acc
        ≡ pos (clk_hz * frac_scale) +ℤ acc
unfolding next_period
next_period-eq d clk_hz freq_mppb phase_corr_ns high_cycles h k =
    let acc = to_i64 (d.frac_acc +ℤ freq_mppb *ℤ clk_hz) in
    omega (int_laws, parts_of_eq _ _ (to_u32-eq _ h k), euclid_parts acc frac_scale)

-- A tick of one second, steered: the word and the fraction that is carried make up the whole.
pub next_ticks-eq :
    (d : NaivePeriodDither) (tick_hz : ℕ) (freq_mppb : ℤ)
    → let acc = d.frac_acc +ℤ freq_mppb *ℤ tick_hz in
      IsI64 acc
      → neg_part (pos tick_hz +ℤ div_euclid acc frac_scale) ≡ 0
      → pos_part (pos tick_hz +ℤ div_euclid acc frac_scale) < 2 ^ 32
      → pos ((next_ticks d tick_hz freq_mppb).1 * frac_scale)
          +ℤ (next_ticks d tick_hz freq_mppb).0.frac_acc
        ≡ pos (tick_hz * frac_scale) +ℤ d.frac_acc +ℤ freq_mppb *ℤ tick_hz
unfolding next_ticks
next_ticks-eq d tick_hz freq_mppb fits h k =
    let acc = d.frac_acc +ℤ freq_mppb *ℤ tick_hz in
    rw (to_i64_lem acc fits)
      (omega (int_laws, parts_of_eq _ _ (to_u32-eq _ h k), euclid_parts acc frac_scale))

-- The fraction stays a fraction.
pub next_ticks_frac :
    (d : NaivePeriodDither) (tick_hz : ℕ) (freq_mppb : ℤ)
    → (pos_part (next_ticks d tick_hz freq_mppb).0.frac_acc < frac_scale)
      × (neg_part (next_ticks d tick_hz freq_mppb).0.frac_acc ≡ 0)
unfolding next_ticks
next_ticks_frac d tick_hz freq_mppb =
    omega (arith, euclid_parts (to_i64 (d.frac_acc +ℤ freq_mppb *ℤ tick_hz)) frac_scale)

-- A steering of less than a half of the frequency keeps the word in its range.
product-le : (a b k : ℕ) → a ≤ b → a * k ≤ b * k
product-le a b k h = grind arith

scaled_small : (f : ℤ) (t : ℕ) → 2 * abs_ℕ f ≤ frac_scale → 2 * abs_ℕ (f *ℤ t) ≤ frac_scale * t
scaled_small f t h = omega (
  arith,
  *ℤ_parts f t,
  product-le (2 * abs_ℕ f) frac_scale t h,
  spread (pos_part f) (neg_part f) t,
)
  where
    spread : (p n k : ℕ) → 2 * (p + n) * k ≡ 2 * (p * k) + 2 * (n * k)
    spread p n k = grind arith

product_abs : (f : ℤ) (t : ℕ) → abs_ℕ (f *ℤ t) ≡ abs_ℕ f * t
unfolding ◌*ℤ◌
product_abs (pos n) t = ground arith
product_abs (negsuc n) t = ground arith

pub next_ticks_fits :
    (d : NaivePeriodDither) (tick_hz : ℕ) (freq_mppb : ℤ)
    → pos_part d.frac_acc < frac_scale
    → neg_part d.frac_acc ≡ 0
    → tick_hz < 2 ^ 31
    → 2 * abs_ℕ freq_mppb ≤ frac_scale
    → abs_ℕ freq_mppb * tick_hz ≤ 2 ^ 62
    → IsI64 (d.frac_acc +ℤ freq_mppb *ℤ tick_hz)
      × (neg_part (pos tick_hz +ℤ div_euclid (d.frac_acc +ℤ freq_mppb *ℤ tick_hz) frac_scale) ≡ 0)
      × (pos_part (pos tick_hz +ℤ div_euclid (d.frac_acc +ℤ freq_mppb *ℤ tick_hz) frac_scale)
          < 2 ^ 32)
next_ticks_fits d tick_hz freq_mppb h k l m n =
    let acc = d.frac_acc +ℤ freq_mppb *ℤ tick_hz in
    let sum = pos tick_hz +ℤ div_euclid acc frac_scale in
    omega (
      int_laws,
      euclid_parts acc frac_scale,
      n,
      parts_apart acc,
      product_abs freq_mppb tick_hz,
      scaled_small freq_mppb tick_hz m,
      parts_apart sum,
      parts_apart (div_euclid acc frac_scale),
      parts_apart (freq_mppb *ℤ tick_hz),
    )
