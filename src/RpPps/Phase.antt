-- ===== src/RpPps/Phase.antt =====
-- rp-pps/src/lib.rs: the phase of the output against the reference.
pub mod Fold
pub mod Loopback
use pico_gnss.Base.{
  ℕ, ◌+◌, ◌-◌, ◌*◌, ◌/◌, ◌%◌, ◌^◌, List, [], ◌∷◌, Option, none, some, if◌then◌else◌, ◌==◌,
}
use pico_gnss.Base.Int.{
  ℤ, pos, negsuc, neg_ℤ, ◌+ℤ◌, ◌-ℤ◌, ◌*ℤ◌, ◌/ℤ◌, ◌%ℤ◌, ltb_ℤ, leb_ℤ, to_u32, to_i32,
}
use pico_gnss.RpPps.Capture.{wrapping_sub, capture_cycles_per_tick, capture_ticks_per_second}

unfoldable pub loopback_raw_lag_ticks : ℕ → ℕ → ℕ → ℤ
loopback_raw_lag_ticks reference_capture output_capture offset_ticks =
    to_i32 (wrapping_sub (wrapping_sub reference_capture output_capture) offset_ticks)

-- `m` is an `i32`, which `ticks_per_second` fits for every clock below `2 ^ 32` Hz.
pub loopback_phase_ticks : ℕ → ℕ → ℕ → ℕ → ℤ
loopback_phase_ticks reference_capture output_capture offset_ticks m =
    let elapsed =
      to_i32 (wrapping_sub (wrapping_sub reference_capture output_capture) offset_ticks) in
    let r = elapsed %ℤ m in
    if ltb_ℤ (pos (m / 2)) r
    then r -ℤ pos m
    else if ltb_ℤ r (neg_ℤ (pos m) /ℤ 2)
    then r +ℤ pos m
    else r

pub loopback_phase_ns : ℕ → ℕ → ℕ → ℕ → ℤ
loopback_phase_ns reference_capture output_capture offset_ticks clk_hz =
    let ticks =
      loopback_phase_ticks reference_capture output_capture offset_ticks
        (capture_ticks_per_second clk_hz) in
    (ticks *ℤ (capture_cycles_per_tick * 1_000_000_000)) /ℤ clk_hz

abbrev pub sec : ℕ
sec = 1_000_000_000

-- The two branches that bring `d` into the second around zero.
pub fold_half : ℤ → ℤ
fold_half d =
    if ltb_ℤ (pos (sec / 2)) d
    then d -ℤ pos sec
    else if leb_ℤ d (neg_ℤ (pos sec) /ℤ 2)
    then d +ℤ pos sec
    else d

-- The difference of two `i64` instants is in ℤ.
pub fold_phase_ns : ℤ → ℤ → ℤ
fold_phase_ns out_ns ref_ns = fold_half ((out_ns -ℤ ref_ns) %ℤ sec)

-- The loop over the samples, as the sum and the number.
unfoldable pub sum_lags : List (ℕ × ℕ) → ℤ → ℕ → ℤ × ℕ
sum_lags [] sum n = (sum, n)
sum_lags ((reference, output) ∷ samples) sum n =
    sum_lags samples (sum +ℤ to_i32 (wrapping_sub reference output)) (n + 1)

unfoldable pub calibrate_loopback_offset : List (ℕ × ℕ) → Option ℕ
calibrate_loopback_offset samples =
    let (sum, n) = sum_lags samples (pos 0) 0 in if n == 0 then none else some (to_u32 (sum /ℤ n))
