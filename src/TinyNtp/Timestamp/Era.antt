-- ===== src/TinyNtp/Timestamp/Era.antt =====
-- Which era `to_unix_ns_near` picks, and what its conversion gives.
use pico_gnss.Base.{◌+◌, ◌-◌, ◌*◌, ◌^◌, ◌<◌, ◌≤◌, ◌≡◌, arith, ◌∙◌, ltb, ℕ, if◌then◌else◌, leb, min}
use pico_gnss.Base.{inl, inr}
use pico_gnss.TinyNtp.Timestamp.RoundTrip.{in_era-from_unix_ns}
use pico_gnss.Base.Int.{
  ℤ, pos, ◌+ℤ◌, ◌-ℤ◌, ◌*ℤ◌, div_euclid, rem_euclid, IsI64, int_laws, pos_part, neg_part,
  parts_apart, ℤ_trichotomy, euclid_parts, abs_ℕ, +ℤ_parts, -ℤ_parts, eq_of_parts, ◌≤ℤ◌,
}
use pico_gnss.TinyNtp.Timestamp.{
  nanos_per_sec, era_secs, ntp_full, era_of_unix_ns, from_unix_ns, to_unix_ns_near, nearest_era,
  near_loop, era_distance,
}

-- The era by a comparison of the seconds within one era.
pub closest_era : ℕ → ℤ → ℤ
closest_era secs ref_full =
    let ref_era = div_euclid ref_full era_secs in
    let ref_secs = rem_euclid ref_full era_secs in
    if leb (2 ^ 31) (secs - ref_secs)
    then ref_era -ℤ pos 1
    else if ltb (2 ^ 31) (ref_secs - secs)
    then ref_era +ℤ pos 1
    else ref_era

module _ (secs : ℕ) (ref_full : ℤ) (fits : secs < 2 ^ 32) where
  -- The four values of the loop's `era`.
  abbrev round₀ : ℤ
  round₀ = div_euclid ref_full era_secs -ℤ pos 1

  next_of_round₀ : round₀ +ℤ pos 1 ≡ div_euclid ref_full era_secs
  next_of_round₀ = omega int_laws

  distance₀ : era_distance secs ref_full round₀ ≡ 2 ^ 32 + rem_euclid ref_full era_secs - secs
  distance₀ = omega (
    int_laws,
    parts_apart (round₀ *ℤ era_secs +ℤ pos secs -ℤ ref_full),
    euclid_parts ref_full era_secs (omega arith),
  )

  distance₁ :
      era_distance secs ref_full (round₀ +ℤ pos 1)
      ≡ (rem_euclid ref_full era_secs - secs) + (secs - rem_euclid ref_full era_secs)
  distance₁ = omega (
    int_laws,
    parts_apart ((round₀ +ℤ pos 1) *ℤ era_secs +ℤ pos secs -ℤ ref_full),
    euclid_parts ref_full era_secs (omega arith),
  )

  distance₂ :
      era_distance secs ref_full (round₀ +ℤ pos 1 +ℤ pos 1)
      ≡ 2 ^ 32 + secs - rem_euclid ref_full era_secs
  distance₂ = omega (
    int_laws,
    parts_apart ((round₀ +ℤ pos 1 +ℤ pos 1) *ℤ era_secs +ℤ pos secs -ℤ ref_full),
    euclid_parts ref_full era_secs (omega arith),
  )

  -- The loop of three rounds is the comparison.
  pub nearest_era-closest_era : nearest_era secs ref_full ≡ closest_era secs ref_full
  unfolding nearest_era near_loop closest_era
  nearest_era-closest_era = ground (
    arith,
    distance₀,
    distance₁,
    distance₂,
    euclid_parts ref_full era_secs,
    eq_of_parts (round₀ +ℤ pos 1) (div_euclid ref_full era_secs) (omega int_laws),
    eq_of_parts (round₀ +ℤ pos 1 +ℤ pos 1) (div_euclid ref_full era_secs +ℤ pos 1) (omega int_laws),
    +ℤ_parts round₀ (pos 1),
    +ℤ_parts (round₀ +ℤ pos 1) (pos 1),
    +ℤ_parts (round₀ +ℤ pos 1 +ℤ pos 1) (pos 1),
    -ℤ_parts (div_euclid ref_full era_secs) (pos 1),
    +ℤ_parts (div_euclid ref_full era_secs) (pos 1),
  )

  -- Bounds on the distance of an era below, above and at the reference's.
  distance_below :
      (era : ℤ)
      → era ≤ℤ round₀
      → 2 ^ 32 + rem_euclid ref_full era_secs - secs ≤ era_distance secs ref_full era
  distance_below era h = omega (int_laws, euclid_parts ref_full era_secs (omega arith))

  distance_above :
      (era : ℤ)
      → div_euclid ref_full era_secs +ℤ pos 1 ≤ℤ era
      → 2 ^ 32 + secs - rem_euclid ref_full era_secs ≤ era_distance secs ref_full era
  distance_above era h = omega (int_laws, euclid_parts ref_full era_secs (omega arith))

  distance_chosen :
      era_distance secs ref_full (closest_era secs ref_full)
      ≡ min (2 ^ 32 + rem_euclid ref_full era_secs - secs) (
          min
            ((rem_euclid ref_full era_secs - secs) + (secs - rem_euclid ref_full era_secs))
            (2 ^ 32 + secs - rem_euclid ref_full era_secs))
  unfolding closest_era
  distance_chosen = ground (
    arith,
    euclid_parts ref_full era_secs,
    distance₀,
    rw (next_of_round₀) at distance₁,
    rw (next_of_round₀) at distance₂,
  )

  -- For seconds below 2^32 no era brings them nearer to the reference than the one that the loop
  -- of `to_unix_ns_near` chooses.
  pub nearest_era_least :
      (era : ℤ)
      → era_distance secs ref_full (nearest_era secs ref_full) ≤ era_distance secs ref_full era
  nearest_era_least era =
      rw (nearest_era-closest_era, distance_chosen)
        (elim (ℤ_trichotomy era (div_euclid ref_full era_secs)) [
          | inl below ↦ omega (arith, distance_below era (omega int_laws))
          | inr (inl same) ↦ omega (int_laws, rw (next_of_round₀, ← same) at distance₁)
          | inr (inr above) ↦ omega (arith, distance_above era above)
        ])

module _ (unix_ns reference : ℤ)
    (near : abs_ℕ (unix_ns -ℤ reference) ≤ (2 ^ 31 - 1) * nanos_per_sec) where
  -- Two instants that are near have their seconds near.
  seconds_near :
      (pos_part (ntp_full unix_ns) + neg_part (ntp_full reference)
        < pos_part (ntp_full reference) + neg_part (ntp_full unix_ns) + 2 ^ 31)
      × (pos_part (ntp_full reference) + neg_part (ntp_full unix_ns)
          < pos_part (ntp_full unix_ns) + neg_part (ntp_full reference) + 2 ^ 31)
  seconds_near = omega (
    int_laws,
    euclid_parts unix_ns nanos_per_sec (omega arith),
    euclid_parts reference nanos_per_sec (omega arith),
  )

  closest_era-era_of_unix_ns :
      closest_era (rem_euclid (ntp_full unix_ns) era_secs) (ntp_full reference)
      ≡ era_of_unix_ns unix_ns
  unfolding closest_era era_of_unix_ns
  closest_era-era_of_unix_ns =
      let here = div_euclid (ntp_full unix_ns) era_secs in
      let there = div_euclid (ntp_full reference) era_secs in
      ground (
        arith,
        seconds_near,
        euclid_parts (ntp_full unix_ns) era_secs,
        euclid_parts (ntp_full reference) era_secs,
        -ℤ_parts there (pos 1),
        +ℤ_parts there (pos 1),
        eq_of_parts (there -ℤ pos 1) here,
        eq_of_parts (there +ℤ pos 1) here,
        eq_of_parts there here,
      )

  -- Within 68 years of the reference the era is found.
  pub nearest_era-era_of_unix_ns :
      nearest_era (rem_euclid (ntp_full unix_ns) era_secs) (ntp_full reference)
      ≡ era_of_unix_ns unix_ns
  nearest_era-era_of_unix_ns =
      nearest_era-closest_era _ _ (euclid_parts (ntp_full unix_ns) era_secs (omega arith)).1
      ∙ closest_era-era_of_unix_ns

  secs_era : nearest_era (from_unix_ns unix_ns).secs (ntp_full reference) ≡ era_of_unix_ns unix_ns
  unfolding from_unix_ns
  secs_era = nearest_era-era_of_unix_ns

  -- An `i64` instant that is within 2^31 - 1 seconds of the reference is read back exactly from
  -- its 64-bit timestamp by `to_unix_ns_near`, in whatever era it lies.
  pub near-from_unix_ns : IsI64 unix_ns → to_unix_ns_near (from_unix_ns unix_ns) reference ≡ unix_ns
  unfolding to_unix_ns_near
  near-from_unix_ns h = rw secs_era (in_era-from_unix_ns unix_ns h)
