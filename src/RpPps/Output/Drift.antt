-- ===== src/RpPps/Output/Drift.antt =====
-- Over any number of edges the software output is within one tick of the steered instant.
use pico_gnss.Base.{ℕ, ◌+◌, ◌*◌, ◌<◌, ◌≤◌, ◌^◌, ◌≡◌, arith, List, [], ◌∷◌, All}
use pico_gnss.Base.Int.{ℤ, pos, pos_part, neg_part, ◌+ℤ◌, ◌*ℤ◌, ◌≤ℤ◌, abs_ℕ, int_laws, parts_of_eq}
use pico_gnss.RpPps.Output.{frac_scale, NaivePeriodDither, new_ticks_dither, next_ticks}
use pico_gnss.RpPps.Output.Dither.{next_ticks-eq, next_ticks_frac, next_ticks_fits}

-- The ticks of a run of edges, by their steerings, and the generator behind them.
pub ticks_of : NaivePeriodDither → ℕ → List ℤ → NaivePeriodDither × ℕ
ticks_of d tick_hz [] = (d, 0)
ticks_of d tick_hz (f ∷ fs) =
    let (next, word) = next_ticks d tick_hz f in
    let (final, ticks) = ticks_of next tick_hz fs in (final, word + ticks)

-- The same run without rounding, in parts of `frac_scale` of a tick.
pub steered : ℕ → List ℤ → ℤ
steered tick_hz [] = pos 0
steered tick_hz (f ∷ fs) = pos (tick_hz * frac_scale) +ℤ f *ℤ tick_hz +ℤ steered tick_hz fs

-- A steering of at most half the frequency, whose product with the tick rate is at most 2^62.
abbrev pub IsMild : ℕ → ℤ → Type 0
IsMild tick_hz f = (2 * abs_ℕ f ≤ frac_scale) × (abs_ℕ f * tick_hz ≤ 2 ^ 62)

abbrev pub IsFraction : NaivePeriodDither → Type 0
IsFraction d = (pos_part d.frac_acc < frac_scale) × (neg_part d.frac_acc ≡ 0)

carried :
    (fs : List ℤ) (d : NaivePeriodDither) (tick_hz : ℕ)
    → tick_hz < 2 ^ 31
    → All (IsMild tick_hz) fs
    → IsFraction d
    → (pos ((ticks_of d tick_hz fs).1 * frac_scale) +ℤ (ticks_of d tick_hz fs).0.frac_acc
        ≡ d.frac_acc +ℤ steered tick_hz fs)
      × IsFraction (ticks_of d tick_hz fs).0
unfolding ticks_of steered
carried [] d tick_hz small mild frac = (omega int_laws, frac)
carried (f ∷ fs) d tick_hz small (m, mild) frac =
    let fits = next_ticks_fits d tick_hz f frac.0 frac.1 small m.0 m.1 in
    let one = next_ticks-eq d tick_hz f fits.0 fits.1 fits.2 in
    let rest =
      carried fs (next_ticks d tick_hz f).0 tick_hz small mild (next_ticks_frac d tick_hz f) in
    (omega (int_laws, parts_of_eq _ _ one, parts_of_eq _ _ rest.0), rest.1)

-- For a tick rate below 2^31 and steerings of at most half the frequency, whose product with the
-- tick rate is at most 2^62, the periods that `next_ticks` gives from the start add up to the
-- steered duration of all the edges rounded down to a whole tick.
pub ticks_of_drift :
    (tick_hz : ℕ) (fs : List ℤ)
    → tick_hz < 2 ^ 31
    → All (IsMild tick_hz) fs
    → (pos ((ticks_of new_ticks_dither tick_hz fs).1 * frac_scale) ≤ℤ steered tick_hz fs)
      × (steered tick_hz fs +ℤ pos 1
          ≤ℤ pos (((ticks_of new_ticks_dither tick_hz fs).1 + 1) * frac_scale))
ticks_of_drift tick_hz fs small mild =
    let (total, frac) = carried fs new_ticks_dither tick_hz small mild (omega arith) in
    omega (int_laws, parts_of_eq _ _ total)
