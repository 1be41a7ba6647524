-- ===== src/RpPps/Phase/Fold.antt =====
-- The folded phase in nanoseconds.
use pico_gnss.Base.{Bool-cases, inl, inr, ◌<◌, ◌≤◌, ◌≡◌, arith}
use pico_gnss.Base.Int.{
  ℤ, pos, negsuc, pos_part, neg_part, ◌+ℤ◌, ◌-ℤ◌, ◌*ℤ◌, ◌/ℤ◌, ◌%ℤ◌, ltb_ℤ, leb_ℤ, int_laws,
  trunc_parts, parts_apart, parts_of_eq,
}
use pico_gnss.RpPps.Phase.{sec, fold_half, fold_phase_ns}

-- A remainder is brought into the half-open second around zero.
fold_half_range :
    (d : ℤ)
    → pos_part d < sec
    → neg_part d < sec
    → (pos_part (fold_half d) ≤ 500_000_000) × (neg_part (fold_half d) < 500_000_000)
unfolding fold_half ◌+ℤ◌ ◌-ℤ◌ ◌/ℤ◌
fold_half_range (pos n) h k = ground arith
fold_half_range (negsuc n) h k = ground arith

-- It is moved by whole seconds.
fold_half_whole : (d : ℤ) → (k : ℤ) × (d ≡ fold_half d +ℤ k *ℤ sec)
unfolding fold_half ◌/ℤ◌
fold_half_whole d = elim (Bool-cases (ltb_ℤ (pos 500_000_000) d)) [
  | inl high ↦ rw high (pos 1, omega int_laws)
  | inr not_high ↦ elim (Bool-cases (leb_ℤ d (negsuc 499_999_999))) [
    | inl low ↦ rw (not_high, low) (negsuc 0, omega int_laws)
    | inr within ↦ rw (not_high, within) (pos 0, omega int_laws)
  ]
]

module _ (out_ns ref_ns : ℤ) where
  -- `fold_phase_ns` differs from the difference of the instants by whole seconds, is at most half
  -- a second, and is more than minus half a second.
  pub fold_phase_ns_lem :
      (k : ℤ) × (out_ns -ℤ ref_ns ≡ fold_phase_ns out_ns ref_ns +ℤ k *ℤ sec)
      × (pos_part (fold_phase_ns out_ns ref_ns) ≤ 500_000_000)
      × (neg_part (fold_phase_ns out_ns ref_ns) < 500_000_000)
  unfolding fold_phase_ns
  fold_phase_ns_lem =
      let a = out_ns -ℤ ref_ns in
      let parts = trunc_parts a sec (omega arith) in
      let (k, whole) = fold_half_whole (a %ℤ sec) in
      let (high, low) = fold_half_range (a %ℤ sec) (omega (arith, parts)) (omega (arith, parts)) in
      (a /ℤ sec +ℤ k, omega (int_laws, parts, parts_of_eq _ _ whole), high, low)

-- Whole seconds added to either instant do not change `fold_phase_ns`.
pub fold_phase_ns_shift :
    (out_ns ref_ns k j : ℤ)
    → fold_phase_ns (out_ns +ℤ k *ℤ sec) (ref_ns +ℤ j *ℤ sec) ≡ fold_phase_ns out_ns ref_ns
fold_phase_ns_shift out_ns ref_ns k j =
    let (p, whole, high, low) = fold_phase_ns_lem out_ns ref_ns in
    let (q, whole₂, high₂, low₂) = fold_phase_ns_lem (out_ns +ℤ k *ℤ sec) (ref_ns +ℤ j *ℤ sec) in
    omega (
      int_laws,
      parts_of_eq _ _ whole,
      parts_of_eq _ _ whole₂,
      parts_apart (fold_phase_ns out_ns ref_ns),
      parts_apart (fold_phase_ns (out_ns +ℤ k *ℤ sec) (ref_ns +ℤ j *ℤ sec)),
    )
