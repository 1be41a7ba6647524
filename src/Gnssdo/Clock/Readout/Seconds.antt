-- ===== src/Gnssdo/Clock/Readout/Seconds.antt =====
-- The snap to a second, and the rounding to whole ppb.
use pico_gnss.Base.{ℕ, ◌*◌, ◌≤◌, ◌<◌, ◌≡◌, refl, arith, ltb, if◌then◌else◌}
use pico_gnss.Base.Int.{
  ℤ, pos, negsuc, pos_part, neg_part, abs_ℕ, ◌+ℤ◌, ◌-ℤ◌, ◌*ℤ◌, ◌/ℤ◌, int_laws, parts_apart,
  *ℤ_parts, trunc_parts, +ℤ_parts, -ℤ_parts,
}
use pico_gnss.Gnssdo.Clock.{DisciplinedClock}
use pico_gnss.Gnssdo.Clock.Readout.{
  signed, snap_to_second_ns, freq_ppb, steering_freq_mppb, predicted_freq_mppb,
}
use pico_gnss.Base.Int.Scale.{clamp_about, clamp_about_bounds}

abbrev pub second : ℕ
second = 1_000_000_000

signed_parts :
    (a : ℤ) (k : ℕ)
    → (pos_part (signed a k) ≡ (if ltb 0 (pos_part a) then k else 0))
      × (neg_part (signed a k) ≡ (if ltb 0 (neg_part a) then k else 0))
unfolding signed
signed_parts (pos n) k = ground arith
signed_parts (negsuc n) k = ground arith

-- A number less its rounded quotient: half a divisor at most.
round_near : (a : ℤ) (h k : ℕ) → 0 < k → 2 * h ≡ k → abs_ℕ (a -ℤ ((a +ℤ signed a h) /ℤ k) *ℤ k) ≤ h
round_near a h k hk e =
    let x = a +ℤ signed a h in
    let q = x /ℤ k in
    ground (
      arith,
      signed_parts a h,
      +ℤ_parts a (signed a h),
      trunc_parts x k hk,
      *ℤ_parts q k,
      -ℤ_parts a (q *ℤ k),
      parts_apart a,
      parts_apart x,
      parts_apart (a -ℤ q *ℤ k),
    )

snap_near : (raw : ℤ) → abs_ℕ (snap_to_second_ns raw) ≤ 500_000_000
unfolding snap_to_second_ns
snap_near raw = round_near raw 500_000_000 second (omega arith) refl

pub snap_whole :
    (secs rest : ℤ) → 2 * abs_ℕ rest < second → snap_to_second_ns (secs *ℤ second +ℤ rest) ≡ rest
unfolding snap_to_second_ns
snap_whole secs rest h =
    let raw = secs *ℤ second +ℤ rest in
    let q = (raw +ℤ signed raw 500_000_000) /ℤ second in
    omega (int_laws, snap_near raw, parts_apart rest, parts_apart (raw -ℤ q *ℤ second))

pub freq_ppb_near : (s : DisciplinedClock) → abs_ℕ (s.freq_mppb -ℤ freq_ppb s *ℤ 1000) ≤ 500
unfolding freq_ppb
freq_ppb_near s = round_near s.freq_mppb 500 1000 (omega arith) refl

pub steering_near :
    (s : DisciplinedClock)
    → abs_ℕ (steering_freq_mppb s -ℤ s.freq_mppb) ≤ s.config.steer_ff_bound_mppb
unfolding steering_freq_mppb
steering_near s =
    let moved = clamp_about (predicted_freq_mppb s -ℤ s.freq_mppb) s.config.steer_ff_bound_mppb in
    omega (
      int_laws,
      clamp_about_bounds (predicted_freq_mppb s -ℤ s.freq_mppb) s.config.steer_ff_bound_mppb,
      parts_apart (s.freq_mppb +ℤ moved -ℤ s.freq_mppb),
    )
