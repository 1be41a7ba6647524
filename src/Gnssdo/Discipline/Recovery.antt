-- ===== src/Gnssdo/Discipline/Recovery.antt =====
-- The quarantine behind an outage.
use pico_gnss.Base.{
  ℕ, ◌≤◌, ◌<◌, ◌≡◌, refl, ◌∙◌, arith, true, false, List, [], ◌∷◌, All, length, some, inl, inr,
}
use pico_gnss.Base.Int.{ℤ}
use pico_gnss.Gnssdo.Clock.{DisciplinedClockConfig, quarantined}
use pico_gnss.Gnssdo.Clock.Gates.{Fits}
use pico_gnss.Gnssdo.Discipline.{Gnssdo, GnssdoStep, on_pps, is_locked_event}
use pico_gnss.Gnssdo.Discipline.Policy.{SameEstimate, IsSteady, run_pps, quarantined_edge}

-- What a quarantine lets through.
abbrev pub IsHeld : GnssdoStep → Type 0
IsHeld o = o.freq ≡ some quarantined

abbrev pub IsLocked : GnssdoStep → Type 0
IsLocked o = is_locked_event o.event ≡ true

-- A quarantine that runs holds as many edges as are left of it.
running :
    (c : DisciplinedClockConfig) (s : Gnssdo) (edges : List (ℕ × ℤ))
    → Fits c
    → s.clock.config ≡ c
    → s.last_pps_locked ≡ true
    → length edges ≤ s.clock.quarantine
    → All (λ e. IsSteady c e.1) edges
    → All IsLocked (run_pps s edges).1
    → All IsHeld (run_pps s edges).1 × SameEstimate (run_pps s edges).0.clock s.clock
unfolding run_pps
running c s [] h e last enough steady locked = (tt, (refl, refl))
running c s ((t, interval) ∷ edges) h e last enough steady locked =
    let (held, same, last', config, left) =
      quarantined_edge s t interval (rw e h) (rw e (steady.0)) locked.0 (inl (last, omega arith)) in
    let (rest, same') =
      running c (on_pps s t interval).0 edges h (config ∙ e) last' (ground (arith, left, last))
        steady.1 locked.1 in
    ((held, rest), (same'.0 ∙ same.0, same'.1 ∙ same.1))

-- Behind an edge that was not locked, with at least one sample and gates that fit in `i64`, as
-- many locked edges with positive and sane intervals as the quarantine is long are all held, and
-- leave the level and the slope as they were.
pub recovery_holds :
    (c : DisciplinedClockConfig) (s : Gnssdo) (edges : List (ℕ × ℤ))
    → Fits c
    → s.clock.config ≡ c
    → s.last_pps_locked ≡ false
    → 0 < s.clock.samples
    → length edges ≤ c.quarantine_samples
    → All (λ e. IsSteady c e.1) edges
    → All IsLocked (run_pps s edges).1
    → All IsHeld (run_pps s edges).1 × SameEstimate (run_pps s edges).0.clock s.clock
unfolding run_pps
recovery_holds c s [] h e last some_sample enough steady locked = (tt, (refl, refl))
recovery_holds c s ((t, interval) ∷ edges) h e last some_sample enough steady locked =
    let (held, same, last', config, left) =
      quarantined_edge s t interval (rw e h) (rw e (steady.0)) locked.0
        (inr (last, some_sample, rw e (omega arith))) in
    let (rest, same') =
      running c (on_pps s t interval).0 edges h (config ∙ e) last' (ground (arith, left, last, e))
        steady.1 locked.1 in
    ((held, rest), (same'.0 ∙ same.0, same'.1 ∙ same.1))
