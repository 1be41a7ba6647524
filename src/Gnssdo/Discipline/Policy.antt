-- ===== src/Gnssdo/Discipline/Policy.antt =====
-- When a pulse moves the estimate of the frequency.
use pico_gnss.Base.{
  ℕ, ◌+◌, ◌<◌, ◌≡◌, ◌⊎◌, refl, arith, Bool, true, false, List, [], ◌∷◌, some, inl, inr,
  if◌then◌else◌, not, ◌&&◌,
}
use pico_gnss.Base.Int.{ℤ, pos, abs_ℕ, ltb_ℤ}
use pico_gnss.Base.Int.Scale.{to_i64_lem}
use pico_gnss.Gnssdo.Tracker
use pico_gnss.Gnssdo.Clock.{
  DisciplinedClock, DisciplinedClockConfig, quarantined, update_freq, start_quarantine, deviation,
}
use pico_gnss.Gnssdo.Clock.Gates.{Fits, IsAdmitted, update_freq_cases}
use pico_gnss.Gnssdo.Discipline.{Gnssdo, GnssdoStep, on_pps, discipline, is_locked_event}

-- The level and the slope of a clock are those of another.
abbrev pub SameEstimate : DisciplinedClock → DisciplinedClock → Type 0
SameEstimate s t = (s.freq_mppb ≡ t.freq_mppb) × (s.freq_slope_mppb ≡ t.freq_slope_mppb)

-- A sane interval, and a positive one.
abbrev pub IsSteady : DisciplinedClockConfig → ℤ → Type 0
IsSteady c interval_ns =
    (ltb_ℤ (pos 0) interval_ns ≡ true) × (abs_ℕ (deviation interval_ns) < c.sane_dev_ns)

pub update_freq_estimate :
    (s : DisciplinedClock) (interval_ns : ℤ)
    → Fits s.config
    → SameEstimate (update_freq s interval_ns).0 s ⊎ IsAdmitted s interval_ns
update_freq_estimate s interval_ns h = elim (update_freq_cases s interval_ns h) [
  | inl (q, le, same) ↦ rw same (inl (refl, refl))
  | inr (inl (admitted, _, _)) ↦ inr admitted
  | inr (inr (admitted, _, _)) ↦ inr admitted
]

-- The clock that is disciplined.
abbrev quarantined_if : Bool → DisciplinedClock → DisciplinedClock
quarantined_if recovered clock = if recovered then start_quarantine clock else clock

quarantined_if-estimate :
    (recovered : Bool) (s : DisciplinedClock)
    → SameEstimate (quarantined_if recovered s) s × ((quarantined_if recovered s).config ≡ s.config)
unfolding start_quarantine
quarantined_if-estimate recovered s = ground arith

discipline_estimate :
    (s : DisciplinedClock) (is_locked recovered : Bool) (interval_ns : ℤ)
    → Fits s.config
    → SameEstimate (discipline s is_locked recovered interval_ns).0 s
      ⊎ ((is_locked ≡ true)
          × (ltb_ℤ (pos 0) interval_ns ≡ true)
          × IsAdmitted (quarantined_if recovered s) interval_ns)
unfolding discipline
discipline_estimate s is_locked recovered interval_ns h =
    let clock = quarantined_if recovered s in
    let (same, config) = quarantined_if-estimate recovered s in
    let fits : Fits clock.config = rw config h in
    ground (arith, same, update_freq_estimate clock interval_ns fits)

-- What lets a pulse move the estimate: it is locked, its interval is positive and sane, no
-- quarantine runs, and the pulse before was locked too, unless there is no sample so far or no
-- quarantine is set.
abbrev pub MayMove : Gnssdo → ℕ → ℤ → Type 0
MayMove s capture_time_us interval_ns =
    (is_locked_event (Tracker.event s.tracker capture_time_us) ≡ true)
    × IsSteady s.clock.config interval_ns
    × (((s.last_pps_locked ≡ true) × (s.clock.quarantine ≡ 0))
        ⊎ ((s.clock.samples ≡ 0) ⊎ (s.clock.config.quarantine_samples ≡ 0)))

-- The quarantine of a recovery is over at once only where there is nothing to protect.
admitted_after :
    (s : DisciplinedClock) (is_locked last : Bool) (interval_ns : ℤ)
    → is_locked ≡ true
    → IsAdmitted (quarantined_if (is_locked && not last) s) interval_ns
    → (abs_ℕ (deviation interval_ns) < s.config.sane_dev_ns)
      × (((last ≡ true) × (s.quarantine ≡ 0))
          ⊎ ((s.samples ≡ 0) ⊎ (s.config.quarantine_samples ≡ 0)))
unfolding start_quarantine
admitted_after s is_locked last interval_ns e admitted = ground arith

-- For gates that fit in `i64`, a pulse leaves the level and the slope as they were unless its
-- edge is locked, its interval is positive and sane, and the edge before was locked with no
-- quarantine running, or there is no sample so far or no quarantine is set.
pub on_pps_estimate :
    (s : Gnssdo) (capture_time_us : ℕ) (interval_ns : ℤ)
    → Fits s.clock.config
    → SameEstimate (on_pps s capture_time_us interval_ns).0.clock s.clock
      ⊎ MayMove s capture_time_us interval_ns
unfolding on_pps Tracker.record_edge
on_pps_estimate s capture_time_us interval_ns h =
    let is_locked = is_locked_event (Tracker.event s.tracker capture_time_us) in
    let recovered = is_locked && not s.last_pps_locked in
    elim (discipline_estimate s.clock is_locked recovered interval_ns h) [
      | inl same ↦ inl same
      | inr (e, positive, admitted) ↦
          let (sane, calm) =
            admitted_after s.clock is_locked s.last_pps_locked interval_ns e admitted in
          inr (e, (positive, sane), calm)
    ]

-- The edges of a run: each with its time and its interval.
unfoldable pub run_pps : Gnssdo → List (ℕ × ℤ) → Gnssdo × List GnssdoStep
run_pps s [] = (s, [])
run_pps s ((t, interval) ∷ edges) =
    let (s', o) = on_pps s t interval in let (u, steps) = run_pps s' edges in (u, o ∷ steps)

-- An edge in quarantine: locked, and sane.
pub quarantined_edge :
    (s : Gnssdo) (t : ℕ) (interval_ns : ℤ)
    → Fits s.clock.config
    → IsSteady s.clock.config interval_ns
    → is_locked_event (on_pps s t interval_ns).1.event ≡ true
    → ((s.last_pps_locked ≡ true) × (0 < s.clock.quarantine))
      ⊎ ((s.last_pps_locked ≡ false)
          × (0 < s.clock.samples)
          × (0 < s.clock.config.quarantine_samples))
    → ((on_pps s t interval_ns).1.freq ≡ some quarantined)
      × SameEstimate (on_pps s t interval_ns).0.clock s.clock
      × ((on_pps s t interval_ns).0.last_pps_locked ≡ true)
      × ((on_pps s t interval_ns).0.clock.config ≡ s.clock.config)
      × ((on_pps s t interval_ns).0.clock.quarantine + 1
          ≡ (if s.last_pps_locked then s.clock.quarantine else s.clock.config.quarantine_samples))
unfolding on_pps discipline start_quarantine update_freq Tracker.record_edge
quarantined_edge s t interval_ns h steady locked waits =
    ground (arith, h.sane_fits, to_i64_lem (pos s.clock.config.sane_dev_ns))
