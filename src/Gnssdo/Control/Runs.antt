-- ===== src/Gnssdo/Control/Runs.antt =====
-- Runs of a controller over a list of edges, behind the laws that every controller meets.
use pico_gnss.Base.{
  ℕ, ◌+◌, ◌*◌, ◌≤◌, ◌<◌, ◌≡◌, refl, ◌∙◌, ◌⊎◌, arith, true, List, [], ◌∷◌, All, length, min, ap,
  subst,
}
use pico_gnss.Base.Int.{ℤ, pos, abs_ℕ, ltb_ℤ}
use pico_gnss.Gnssdo.Control.{ControlInput, ControlOutput, PhaseController, corr_clamp_ns}

unfoldable pub run :
    {S : Type 0} → PhaseController S → S → List ControlInput → S × List ControlOutput
run c s [] = (s, [])
run c s (i ∷ inputs) =
    let (s', o) = c.step s i in let (t, outputs) = run c s' inputs in (t, o ∷ outputs)

-- The trim within a limit, the correction within two clamps, and none where nothing is applied.
abbrev pub IsWithin : ℕ → ControlOutput → Type 0
IsWithin limit o =
    (abs_ℕ o.trim_mppb ≤ limit)
    × (abs_ℕ o.pcorr_ns ≤ 2 * corr_clamp_ns)
    × ((o.applied ≡ true) ⊎ (o.pcorr_ns ≡ pos 0))

-- The configuration of a controller that the laws speak of.
pub record Limits : Type 0 where
  pub trim_max : ℕ
  pub lock_ns : ℤ
  pub lock_hold : ℕ
  pub outlier_max : ℕ

-- A trustworthy edge in the lock window.
abbrev pub IsCalm : Limits → ControlInput → Type 0
IsCalm l i = (i.valid ≡ true) × (ltb_ℤ (pos (abs_ℕ i.err_ns)) l.lock_ns ≡ true)

pub record Laws {S : Type 0} (c : PhaseController S) : Type 1 where
  pub IsStable : S → Type 0
  pub limits : S → Limits
  pub lock_cnt : S → ℕ
  pub reject_cnt : S → ℕ
  pub step-IsStable : (s : S) (i : ControlInput) → IsStable s → IsStable (c.step s i).0
  pub step_limits : (s : S) (i : ControlInput) → limits (c.step s i).0 ≡ limits s
  pub step-IsWithin :
      (s : S) (i : ControlInput) → IsStable s → IsWithin (limits s).trim_max (c.step s i).1
  pub step_rejected :
      (s : S) (i : ControlInput)
      → (c.step s i).1.rejected ≡ true
      → (reject_cnt (c.step s i).0 ≡ reject_cnt s + 1) × (reject_cnt s < (limits s).outlier_max)
  pub step_calm :
      (s : S) (i : ControlInput)
      → IsStable s
      → IsCalm (limits s) i
      → min (lock_cnt s + 1) (limits s).lock_hold ≤ lock_cnt (c.step s i).0
  pub locked_lem : (s : S) → IsStable s → (limits s).lock_hold ≤ lock_cnt s → c.is_locked s ≡ true

module _ {S : Type 0} (c : PhaseController S) (laws : Laws c) where
  open laws use {
    IsStable, limits, lock_cnt, reject_cnt, step-IsStable, step_limits, step-IsWithin,
    step_rejected, step_calm, locked_lem,
  }

  pub run-IsWithin :
      (s : S) (inputs : List ControlInput)
      → IsStable s
      → All (IsWithin (limits s).trim_max) (run c s inputs).1
  unfolding run
  run-IsWithin s [] h = tt
  run-IsWithin s (i ∷ inputs) h = (
    step-IsWithin s i h,
    subst (λ (l : Limits). All (IsWithin l.trim_max) (run c (c.step s i).0 inputs).1)
        (step_limits s i) (run-IsWithin (c.step s i).0 inputs (step-IsStable s i h)),
  )

  -- A streak of rejections is no longer than the limit, counted from its start.
  pub run_rejected :
      (s : S) (inputs : List ControlInput)
      → reject_cnt s ≤ (limits s).outlier_max
      → All (λ o. o.rejected ≡ true) (run c s inputs).1
      → reject_cnt s + length inputs ≤ (limits s).outlier_max
  unfolding run
  run_rejected s [] h r = omega arith
  run_rejected s (i ∷ inputs) h r =
      let (counted, below) = step_rejected s i r.0 in
      let fits : reject_cnt (c.step s i).0 ≤ (limits (c.step s i).0).outlier_max =
        rw (step_limits s i) (omega (arith, counted, below)) in
      omega (
        arith,
        counted,
        run_rejected (c.step s i).0 inputs fits r.1,
        ap (λ (l : Limits). l.outlier_max) (step_limits s i),
      )

  run_count :
      (s : S) (inputs : List ControlInput)
      → IsStable s
      → All (IsCalm (limits s)) inputs
      → min (lock_cnt s + length inputs) (limits s).lock_hold ≤ lock_cnt (run c s inputs).0
  unfolding run
  run_count s [] h calm = omega arith
  run_count s (i ∷ inputs) h calm =
      let same = step_limits s i in
      omega (
        arith,
        step_calm s i h calm.0,
        run_count (c.step s i).0 inputs (step-IsStable s i h) (rw same (calm.1)),
        ap (λ (l : Limits). l.lock_hold) same,
      )

  run-IsStable :
      (s : S) (inputs : List ControlInput)
      → IsStable s
      → IsStable (run c s inputs).0 × (limits (run c s inputs).0 ≡ limits s)
  unfolding run
  run-IsStable s [] h = (h, refl)
  run-IsStable s (i ∷ inputs) h =
      let (stable, same) = run-IsStable (c.step s i).0 inputs (step-IsStable s i h) in
      (stable, same ∙ step_limits s i)

  pub run_locks :
      (s : S) (inputs : List ControlInput)
      → IsStable s
      → All (IsCalm (limits s)) inputs
      → (limits s).lock_hold ≤ length inputs
      → c.is_locked (run c s inputs).0 ≡ true
  run_locks s inputs h calm enough =
      let (stable, same) = run-IsStable s inputs h in
      locked_lem (run c s inputs).0 stable
        (omega (arith, run_count s inputs h calm, ap (λ (l : Limits). l.lock_hold) same))
