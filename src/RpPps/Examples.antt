-- ===== src/RpPps/Examples.antt =====
-- Concrete runs of rp-pps, and its theorems at concrete inputs.
mod Sentences
mod Edges
mod Fields
mod Sync
use pico_gnss.Base.{ℕ, ◌≡◌, refl, List, [], ◌∷◌}
use pico_gnss.Base.Int.{ℤ, pos, ◌+ℤ◌, ◌-ℤ◌, ◌*ℤ◌, ◌/ℤ◌}
use pico_gnss.RpPps.Calendar.{days_from_civil, civil_to_unix, days_from_march}

-- The anchors of `civil_to_unix_known_anchors`.
unix_epoch : civil_to_unix (pos 1970) (pos 1) (pos 1) (pos 0) (pos 0) (pos 0) ≡ pos 0
unfolding civil_to_unix days_from_civil days_from_march ◌+ℤ◌ ◌-ℤ◌ ◌*ℤ◌ ◌/ℤ◌
unix_epoch = refl

measured_fix :
    civil_to_unix (pos 2026) (pos 6) (pos 7) (pos 17) (pos 6) (pos 59) ≡ pos 1_780_852_019
unfolding civil_to_unix days_from_civil days_from_march ◌+ℤ◌ ◌-ℤ◌ ◌*ℤ◌ ◌/ℤ◌
measured_fix = refl
