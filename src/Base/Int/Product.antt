-- ===== src/Base/Int/Product.antt =====
-- Laws of the product of signed integers.
use pico_gnss.Base.Int.{ℤ, pos, negsuc, pos_part, neg_part, abs_ℕ, ◌+ℤ◌, int_laws, +ℤ_parts}
use pico_gnss.Base.Int.Scale.{◌×ℤ◌}
use Prim.Native.Nat.{ℕ, ◌+◌, ◌*◌}
use mathlib.Core.Path.{◌≡◌, ap}
use native.Mathlib.Omega.{arith}

-- The parts of a product, for `omega`.
pub ×ℤ_parts :
    (a b : ℤ)
    → pos_part (a ×ℤ b) + (pos_part a * neg_part b + neg_part a * pos_part b)
      ≡ neg_part (a ×ℤ b) + (pos_part a * pos_part b + neg_part a * neg_part b)
unfolding ◌×ℤ◌
×ℤ_parts a b = ground arith

pub abs-mul : (a b : ℤ) → abs_ℕ (a ×ℤ b) ≡ abs_ℕ a * abs_ℕ b
unfolding ◌×ℤ◌
abs-mul (pos n) (pos m) = ground arith
abs-mul (pos n) (negsuc m) = ground arith
abs-mul (negsuc n) (pos m) = ground arith
abs-mul (negsuc n) (negsuc m) = ground arith

pub add-mul_ℤ : (a b f : ℤ) → (a +ℤ b) ×ℤ f ≡ a ×ℤ f +ℤ b ×ℤ f
add-mul_ℤ a b f =
    let e = +ℤ_parts a b in
    omega (
      int_laws,
      ×ℤ_parts (a +ℤ b) f,
      ×ℤ_parts a f,
      ×ℤ_parts b f,
      ap (λ (t : ℕ). t * pos_part f) e,
      ap (λ (t : ℕ). t * neg_part f) e,
    )
