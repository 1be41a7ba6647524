-- ===== src/Base/Int/Scale.antt =====
-- Products, clamps and shifts of signed integers, as the servo and the disciplined clock make them.
use pico_gnss.Base.Tests.{leb, if◌then◌else◌}
use pico_gnss.Base.Int.{
  ℤ, pos, negsuc, pos_part, neg_part, sub_ℕ, ◌*ℤ◌, ltb_ℤ, abs_ℕ, div_euclid, to_i64, IsI64,
  rem_euclid, ◌+ℤ◌, ◌-ℤ◌, ◌/ℤ◌, int_laws, parts_apart,
}
use Prim.Native.Nat.{ℕ, suc, ◌+◌, ◌*◌, ◌^◌, ◌≤◌, ◌<◌, min}
use mathlib.Core.Path.{◌≡◌}
use native.Mathlib.Omega.{arith}
use native.Mathlib.Nat.{div-le_self}

infixl 70 ◌×ℤ◌
infixl 60 ◌>>ℤ◌ ◌<<ℤ◌
unfoldable pub ◌×ℤ◌ : ℤ → ℤ → ℤ
a ×ℤ b =
    sub_ℕ (pos_part a * pos_part b + neg_part a * neg_part b)
      (pos_part a * neg_part b + neg_part a * pos_part b)

-- `i64::clamp`, which panics for an empty range.
unfoldable pub clamp_ℤ : ℤ → ℤ → ℤ → ℤ
clamp_ℤ x lo hi = if ltb_ℤ x lo then lo else if ltb_ℤ hi x then hi else x

-- The clamp to a range about zero.
unfoldable pub clamp_about : ℤ → ℕ → ℤ
unfolding clamp_ℤ
clamp_about x b = clamp_ℤ x (sub_ℕ 0 b) (pos b)

-- `max(1)`, for a divisor.
unfoldable pub max_one : ℤ → ℕ
max_one d = if leb 1 (pos_part d) then pos_part d else 1

-- The arithmetic shift to the right.
unfoldable pub ◌>>ℤ◌ : ℤ → ℕ → ℤ
a >>ℤ k = div_euclid a (2 ^ k)

-- The shift to the left drops the bits above the 64th.
unfoldable pub ◌<<ℤ◌ : ℤ → ℕ → ℤ
a <<ℤ k = to_i64 (a *ℤ 2 ^ k)

pub to_i64_lem : (a : ℤ) → IsI64 a → to_i64 a ≡ a
unfolding rem_euclid
to_i64_lem (pos n) h = ground arith
to_i64_lem (negsuc n) h = ground arith

pub clamp_about_bounds : (x : ℤ) (b : ℕ) → abs_ℕ (clamp_about x b) ≤ b
unfolding clamp_about
clamp_about_bounds x b = ground arith

pub clamp_about_lem : (x : ℤ) (b : ℕ) → abs_ℕ x ≤ b → clamp_about x b ≡ x
unfolding clamp_about
clamp_about_lem x b h = ground arith

pub clamp_about_parts :
    (x : ℤ) (b : ℕ)
    → (pos_part (clamp_about x b) ≡ min (pos_part x) b)
      × (neg_part (clamp_about x b) ≡ min (neg_part x) b)
unfolding clamp_about
clamp_about_parts (pos n) b = ground arith
clamp_about_parts (negsuc n) b = ground arith

pub max_one_pos : (d : ℤ) → 0 < max_one d
unfolding max_one
max_one_pos d = ground arith

pub abs-add : (a b : ℤ) → abs_ℕ (a +ℤ b) ≤ abs_ℕ a + abs_ℕ b
abs-add a b = omega (int_laws, parts_apart (a +ℤ b))

pub abs-sub : (a b : ℤ) → abs_ℕ (a -ℤ b) ≤ abs_ℕ a + abs_ℕ b
abs-sub a b = omega (int_laws, parts_apart (a -ℤ b))

-- A quotient is of the sign of the number, and no larger.
pub div_parts_le :
    (a : ℤ) (k : ℕ) → (pos_part (a /ℤ k) ≤ pos_part a) × (neg_part (a /ℤ k) ≤ neg_part a)
unfolding ◌/ℤ◌
div_parts_le (pos n) k = ground (arith, div-le_self n k)
div_parts_le (negsuc n) k = ground (arith, div-le_self (suc n) k)

pub abs-div : (a : ℤ) (k : ℕ) → abs_ℕ (a /ℤ k) ≤ abs_ℕ a
abs-div a k = omega (arith, div_parts_le a k)
