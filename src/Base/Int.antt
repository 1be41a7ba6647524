-- ===== src/Base/Int.antt =====
-- Signed integers over the native numbers, with Rust's two divisions and its 64-bit range.
-- Sums and orders go through the two parts of an integer, which are numbers that `omega` reads.
pub mod Scale
pub mod Product
use pico_gnss.Base.Tests.{ltb, leb, if◌then◌else◌}
use Prim.Native.Nat.{ℕ, suc, ◌+◌, ◌-◌, ◌*◌, ◌/◌, ◌%◌, ◌^◌, ◌≤◌, ◌<◌, min}
use mathlib.Core.Path.{◌≡◌, refl}
use mathlib.Core.Bool.{Bool}
use mathlib.Core.Logic.{◌⊎◌, inl, inr}
use native.Mathlib.Decide.{dec_lt}
use native.Mathlib.Omega.{arith}
use native.Mathlib.Nat.{div-add-mod, mod-lt}

-- `negsuc n` is -(n + 1).
pub data ℤ : Type 0 where
  pos : ℕ → ℤ
  negsuc : ℕ → ℤ

abbrev pub pos_part : ℤ → ℕ
pos_part (pos n) = n
pos_part (negsuc n) = 0

abbrev pub neg_part : ℤ → ℕ
neg_part (pos n) = 0
neg_part (negsuc n) = suc n

-- a - b, as an integer.
abbrev pub sub_ℕ : ℕ → ℕ → ℤ
sub_ℕ a b = if leb b a then pos (a - b) else negsuc (b - a - 1)

infixl 65 ◌+ℤ◌ ◌-ℤ◌
infixl 70 ◌*ℤ◌
infix 50 ◌≤ℤ◌
unfoldable pub ◌+ℤ◌ : ℤ → ℤ → ℤ
a +ℤ b = sub_ℕ (pos_part a + pos_part b) (neg_part a + neg_part b)

unfoldable pub ◌-ℤ◌ : ℤ → ℤ → ℤ
a -ℤ b = sub_ℕ (pos_part a + neg_part b) (neg_part a + pos_part b)

-- A multiple by a number that is not negative, the only kind that the code makes with an unknown.
unfoldable pub ◌*ℤ◌ : ℤ → ℕ → ℤ
a *ℤ k = sub_ℕ (pos_part a * k) (neg_part a * k)

abbrev pub neg_ℤ : ℤ → ℤ
neg_ℤ a = sub_ℕ (neg_part a) (pos_part a)

abbrev pub ◌≤ℤ◌ : ℤ → ℤ → Type 0
a ≤ℤ b = pos_part a + neg_part b ≤ pos_part b + neg_part a

abbrev pub ltb_ℤ : ℤ → ℤ → Bool
ltb_ℤ a b = ltb (pos_part a + neg_part b) (pos_part b + neg_part a)

abbrev pub leb_ℤ : ℤ → ℤ → Bool
leb_ℤ a b = leb (pos_part a + neg_part b) (pos_part b + neg_part a)

-- |a|, as a number.
abbrev pub abs_ℕ : ℤ → ℕ
abs_ℕ a = pos_part a + neg_part a

-- Rust's `div_euclid` and `rem_euclid` by a positive divisor.
unfoldable pub div_euclid : ℤ → ℕ → ℤ
div_euclid (pos n) k = pos (n / k)
div_euclid (negsuc n) k = negsuc (n / k)

unfoldable pub rem_euclid : ℤ → ℕ → ℕ
rem_euclid (pos n) k = n % k
rem_euclid (negsuc n) k = k - 1 - n % k

-- Rust's `/` and `%` on signed integers, by a positive divisor: toward zero.
unfoldable pub ◌/ℤ◌ : ℤ → ℕ → ℤ
pos n /ℤ k = pos (n / k)
negsuc n /ℤ k = sub_ℕ 0 (suc n / k)

unfoldable pub ◌%ℤ◌ : ℤ → ℕ → ℤ
pos n %ℤ k = pos (n % k)
negsuc n %ℤ k = sub_ℕ 0 (suc n % k)

infixl 70 ◌/ℤ◌ ◌%ℤ◌
-- `i64::MAX` and `i64::MIN`, the range, and the saturation to it.
abbrev pub i64_max : ℤ
i64_max = pos (2 ^ 63 - 1)

abbrev pub i64_min : ℤ
i64_min = negsuc (2 ^ 63 - 1)

abbrev pub IsI64 : ℤ → Type 0
IsI64 a = (pos_part a < 2 ^ 63) × (neg_part a ≤ 2 ^ 63)

abbrev pub saturate_i64 : ℤ → ℤ
saturate_i64 a = if ltb_ℤ i64_max a then i64_max else if ltb_ℤ a i64_min then i64_min else a

-- What a cast `as u32` keeps of a signed integer, and `as i32` of a 32-bit word.
abbrev pub to_u32 : ℤ → ℕ
to_u32 a = rem_euclid a (2 ^ 32)

abbrev pub to_i32 : ℕ → ℤ
to_i32 w = if ltb w (2 ^ 31) then pos w else negsuc (2 ^ 32 - w - 1)

-- A sum of 64-bit signed integers with its wrap-around.
abbrev pub to_i64 : ℤ → ℤ
to_i64 a =
    let w = rem_euclid a (2 ^ 64) in if ltb w (2 ^ 63) then pos w else negsuc (2 ^ 64 - w - 1)

-- One lemma for each operation lets `omega` work with the operations shut, at any depth.
pub +ℤ_parts :
    (a b : ℤ)
    → pos_part (a +ℤ b) + neg_part a + neg_part b ≡ neg_part (a +ℤ b) + pos_part a + pos_part b
unfolding ◌+ℤ◌
+ℤ_parts a b = ground arith

pub -ℤ_parts :
    (a b : ℤ)
    → pos_part (a -ℤ b) + neg_part a + pos_part b ≡ neg_part (a -ℤ b) + pos_part a + neg_part b
unfolding ◌-ℤ◌
-ℤ_parts a b = ground arith

pub *ℤ_parts :
    (a : ℤ) (k : ℕ) → (pos_part (a *ℤ k) ≡ pos_part a * k) × (neg_part (a *ℤ k) ≡ neg_part a * k)
unfolding ◌*ℤ◌
*ℤ_parts (pos n) k = ground arith
*ℤ_parts (negsuc n) k = ground arith

pub eq_of_parts : (a b : ℤ) → pos_part a + neg_part b ≡ pos_part b + neg_part a → a ≡ b
eq_of_parts a b h = ground arith

-- The converse, for `omega` to read an equation.
pub parts_of_eq : (a b : ℤ) → a ≡ b → pos_part a + neg_part b ≡ pos_part b + neg_part a
parts_of_eq a b e = rw e refl

pub ruleset int_laws = (arith, +ℤ_parts, -ℤ_parts, *ℤ_parts, eq_of_parts)

-- Quotient and remainder make up the number, and the remainder is small.
pub euclid_parts :
    (a : ℤ) (k : ℕ)
    → 0 < k
    → (pos_part (div_euclid a k) * k + rem_euclid a k + neg_part a
        ≡ neg_part (div_euclid a k) * k + pos_part a)
      × (rem_euclid a k < k)
unfolding div_euclid rem_euclid
euclid_parts (pos n) k h = ground (arith, div-add-mod n k, mod-lt n h)
euclid_parts (negsuc n) k h = ground (arith, div-add-mod n k, mod-lt n h)

-- Truncated quotient and remainder: the remainder has the sign of the number.
pub trunc_parts :
    (a : ℤ) (k : ℕ)
    → 0 < k
    → (pos_part (a /ℤ k) * k + pos_part (a %ℤ k) ≡ pos_part a)
      × (neg_part (a /ℤ k) * k + neg_part (a %ℤ k) ≡ neg_part a)
      × (pos_part (a %ℤ k) < k)
      × (neg_part (a %ℤ k) < k)
unfolding ◌/ℤ◌ ◌%ℤ◌
trunc_parts (pos n) k h = ground (arith, div-add-mod n k, mod-lt n h)
trunc_parts (negsuc n) k h = ground (arith, div-add-mod (suc n) k, mod-lt (suc n) h)

pub saturate_i64-eq : (a : ℤ) → IsI64 a → saturate_i64 a ≡ a
saturate_i64-eq a h = ground arith

pub saturate_i64-IsI64 : (a : ℤ) → IsI64 (saturate_i64 a)
saturate_i64-IsI64 a = ground arith

-- One of the two parts is zero.
pub parts_apart : (a : ℤ) → min (pos_part a) (neg_part a) ≡ 0
parts_apart (pos n) = omega arith
parts_apart (negsuc n) = omega arith

pub ℤ_trichotomy : (a b : ℤ) → (a +ℤ pos 1 ≤ℤ b) ⊎ ((a ≡ b) ⊎ (b +ℤ pos 1 ≤ℤ a))
ℤ_trichotomy a b = elim (dec_lt (pos_part a + neg_part b) (pos_part b + neg_part a)) [
  | yes less ↦ inl (omega int_laws)
  | no not_less ↦ elim (dec_lt (pos_part b + neg_part a) (pos_part a + neg_part b)) [
    | yes more ↦ inr (inr (omega int_laws))
    | no not_more ↦ inr (inl (eq_of_parts a b (omega arith)))
  ]
]

-- `i8` and its casts, which keep the bit pattern.
abbrev pub IsI8 : ℤ → Type 0
IsI8 a = (pos_part a < 128) × (neg_part a ≤ 128)

abbrev pub as_u8 : ℤ → ℕ
as_u8 (pos n) = n % 256
as_u8 (negsuc n) = 255 - n % 256

abbrev pub as_i8 : ℕ → ℤ
as_i8 w = if ltb w 128 then pos w else negsuc (255 - w)

pub as_i8-as_u8 : (a : ℤ) → IsI8 a → as_i8 (as_u8 a) ≡ a
as_i8-as_u8 (pos n) h = ground arith
as_i8-as_u8 (negsuc n) h = ground arith

pub as_u8-as_i8 : (w : ℕ) → w < 256 → as_u8 (as_i8 w) ≡ w
as_u8-as_i8 w h = ground arith
