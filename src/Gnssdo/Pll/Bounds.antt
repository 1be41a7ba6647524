-- ===== src/Gnssdo/Pll/Bounds.antt =====
-- The range of the loop's state and of what it gives, for every run of edges.
use pico_gnss.Base.{
  ℕ, ◌+◌, ◌≤◌, ◌≡◌, arith, Bool, true, false, ◌∷◌, All, All-take, length, length-take, take,
  Bool-cases, inl, inr,
}
use pico_gnss.Base.Int.{ℤ, pos, abs_ℕ, ◌+ℤ◌}
use pico_gnss.Base.Int.Scale.{clamp_about_bounds, abs-add}
use pico_gnss.Gnssdo.Control.{corr_clamp_ns}
use pico_gnss.Gnssdo.Pll.{
  PhaseLockLoop, PhaseLockLoopConfig, smith_max, update, integrate, p_term, d_term, count_lock,
  is_outlier, predicted,
}

abbrev pub two_clamps : ℕ
two_clamps = 200_000_000

-- The counts stop at their limits, the trim at its clamp, and a correction at twice its clamp.
pub record IsStable (s : PhaseLockLoop) : Type 0 where
  pub lock_le : s.lock_cnt ≤ s.config.lock_hold
  pub reject_le : s.reject_cnt ≤ s.config.outlier_max
  pub trim_le : abs_ℕ s.trim_mppb ≤ s.config.trim_max_mppb
  pub hist_le : All (λ x. abs_ℕ x ≤ two_clamps) s.pd_hist
  pub hist_length : length s.pd_hist ≡ smith_max

integrate_le :
    (s : PhaseLockLoop) (ctrl pred : ℤ)
    → abs_ℕ s.trim_mppb ≤ s.config.trim_max_mppb
    → abs_ℕ (integrate s ctrl pred) ≤ s.config.trim_max_mppb
unfolding integrate
integrate_le s ctrl pred h = grind (arith, clamp_about_bounds)

p_term_le : (c : PhaseLockLoopConfig) (pred : ℤ) → abs_ℕ (p_term c pred) ≤ corr_clamp_ns
unfolding p_term
p_term_le c pred = grind (arith, clamp_about_bounds)

d_term_le : (s : PhaseLockLoop) (pred : ℤ) → abs_ℕ (d_term s pred) ≤ corr_clamp_ns
unfolding d_term
d_term_le s pred = grind (arith, clamp_about_bounds)

pub count_lock-le : (lock_ns ctrl : ℤ) (hold n : ℕ) → count_lock lock_ns hold n ctrl ≤ hold
unfolding count_lock
count_lock-le lock_ns ctrl hold n = ground arith

pd_le : (s : PhaseLockLoop) (pred : ℤ) → abs_ℕ (p_term s.config pred +ℤ d_term s pred) ≤ two_clamps
pd_le s pred = omega (
  arith,
  abs-add (p_term s.config pred) (d_term s pred),
  p_term_le s.config pred,
  d_term_le s pred,
)

hist-shift :
    (s : PhaseLockLoop) (pd : ℤ)
    → length s.pd_hist ≡ smith_max
    → length (pd ∷ take 7 s.pd_hist) ≡ smith_max
hist-shift s pd h = omega (arith, length-take {0} 7 s.pd_hist)

pub outlier_lt :
    (s : PhaseLockLoop) (err : ℤ)
    → is_outlier s err ≡ true
    → s.reject_cnt + 1 ≤ s.config.outlier_max
unfolding is_outlier
outlier_lt s err h = ground arith

pub update-IsStable :
    (s : PhaseLockLoop) (err : ℤ) (valid : Bool) → IsStable s → IsStable (update s err valid).0
unfolding update
update-IsStable s err false h = h
update-IsStable s err true h = elim (Bool-cases (is_outlier s err)) [
  | inl out ↦ rw out (record {
    lock_le = h.lock_le;
    reject_le = outlier_lt s err out;
    trim_le = h.trim_le;
    hist_le = h.hist_le;
    hist_length = h.hist_length;
  })
  | inr calm ↦ rw calm (record {
    lock_le = count_lock-le s.config.lock_ns err s.config.lock_hold s.lock_cnt;
    reject_le = omega arith;
    trim_le = integrate_le s err (predicted s err) h.trim_le;
    hist_le = (pd_le s (predicted s err), All-take _ 7 s.pd_hist h.hist_le);
    hist_length =
        hist-shift s (p_term s.config (predicted s err) +ℤ d_term s (predicted s err))
          h.hist_length;
  })
]

-- What an edge gives: the trim within its clamp, the correction within two clamps, and no
-- correction for an edge that is not applied.
pub update_trim_le :
    (s : PhaseLockLoop) (err : ℤ) (valid : Bool)
    → IsStable s
    → abs_ℕ (update s err valid).1.freq_trim_mppb ≤ s.config.trim_max_mppb
unfolding update
update_trim_le s err valid h =
    grind (arith, integrate_le s err (predicted s err) h.trim_le, h.trim_le)

pub update_corr_le :
    (s : PhaseLockLoop) (err : ℤ) (valid : Bool)
    → abs_ℕ (update s err valid).1.phase_corr_ns ≤ two_clamps
unfolding update
update_corr_le s err valid = grind (arith, pd_le s (predicted s err))

pub update_held :
    (s : PhaseLockLoop) (err : ℤ) (valid : Bool)
    → (update s err valid).1.applied ≡ false
    → (update s err valid).1.phase_corr_ns ≡ pos 0
unfolding update
update_held s err valid h = ground arith

pub update_config :
    (s : PhaseLockLoop) (err : ℤ) (valid : Bool) → (update s err valid).0.config ≡ s.config
unfolding update
update_config s err valid = ground arith
