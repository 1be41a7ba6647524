-- ===== src/Base/Bits.antt =====
-- Laws of `&`, `|` and `^` on native numbers, from the recursion on binary digits that they mean.
pub mod Xor
use Prim.Native.Nat.{ℕ, zero, suc, ◌+◌, ◌*◌, ◌/◌, ◌%◌, ◌^◌, ◌-◌, ◌≤◌, ◌<◌, min, max}
use Prim.Native.Nat.{bit_and, bit_or, digits, bit_and-bitwise, bit_or-bitwise}
use mathlib.Core.Path.{◌≡◌, refl, ap}
use mathlib.Core.Bool.{Bool, true, ◌&&◌}
use native.Mathlib.Omega.{arith}
use native.Mathlib.Nat.{pow-suc, one-le-pow}
use pico_gnss.Base.Tests.{◌==◌, ==_iff}

-- A test of every number below a bound, by evaluation.
unfoldable pub all_below : ℕ → (ℕ → Bool) → Bool
all_below zero test = true
all_below (suc bound) test = all_below bound test && test bound

pub all_below_sound :
    (bound : ℕ) (test : ℕ → Bool) (k : ℕ) → all_below bound test ≡ true → k < bound → test k ≡ true
unfolding all_below
all_below_sound zero test k passed below = absurd (omega arith)
all_below_sound (suc bound) test k passed below = ground (arith, all_below_sound bound test k)

-- Two functions that agree on each number below a bound.
pub agree_below :
    (f g : ℕ → ℕ) (n : ℕ) → all_below n (λ x. f x == g x) ≡ true → (x : ℕ) → x < n → f x ≡ g x
agree_below f g n table x h = (==_iff _ _).0 (all_below_sound n _ x table h)

-- Any fuel that covers the first number will do.
pub digits_fuel :
    (z : ℕ → ℕ) (f : ℕ → ℕ → ℕ) (short long x y : ℕ)
    → x ≤ short
    → x ≤ long
    → digits z f short x y ≡ digits z f long x y
digits_fuel z f zero zero x y enough more = refl
digits_fuel z f short long zero y enough more = no_digits short long
  where
    no_digits : (i j : ℕ) → digits z f i 0 y ≡ digits z f j 0 y
    no_digits zero zero = refl
    no_digits zero (suc j) = refl
    no_digits (suc i) zero = refl
    no_digits (suc i) (suc j) = refl
digits_fuel z f zero long (suc x) y enough more = absurd (omega arith)
digits_fuel z f short zero (suc x) y enough more = absurd (omega arith)
digits_fuel z f (suc short) (suc long) (suc x) y enough more =
    ap (λ (t : ℕ). t * 2 + f (suc x % 2) (y % 2))
      (digits_fuel z f short long (suc x / 2) (y / 2) (omega arith) (omega arith))

-- `|` and `&` by their lowest digit.
or_step : (a b : ℕ) → bit_or a b ≡ bit_or (a / 2) (b / 2) * 2 + max (a % 2) (b % 2)
or_step zero b = simp bit_or-bitwise (omega arith)
or_step (suc a) b = simp bit_or-bitwise (
    ap (λ (t : ℕ). t * 2 + max (suc a % 2) (b % 2))
      (digits_fuel (λ y. y) max a (suc a / 2) (suc a / 2) (b / 2) (omega arith) (omega arith)))

and_step : (a b : ℕ) → bit_and a b ≡ bit_and (a / 2) (b / 2) * 2 + min (a % 2) (b % 2)
and_step zero b = simp bit_and-bitwise (omega arith)
and_step (suc a) b = simp bit_and-bitwise (
    ap (λ (t : ℕ). t * 2 + min (suc a % 2) (b % 2))
      (digits_fuel (λ y. 0) min a (suc a / 2) (suc a / 2) (b / 2) (omega arith) (omega arith)))

or-zero_below : (n a : ℕ) → a ≤ n → bit_or a 0 ≡ a
or-zero_below n zero h = refl
or-zero_below zero (suc a) h = absurd (omega arith)
or-zero_below (suc n) (suc a) h =
    omega (arith, or_step (suc a) 0, or-zero_below n (suc a / 2) (omega arith))

and-zero_below : (n a : ℕ) → a ≤ n → bit_and a 0 ≡ 0
and-zero_below n zero h = refl
and-zero_below zero (suc a) h = absurd (omega arith)
and-zero_below (suc n) (suc a) h =
    omega (arith, and_step (suc a) 0, and-zero_below n (suc a / 2) (omega arith))

twice_shift : (q k : ℕ) → q * 2 ^ suc k ≡ 2 * (q * 2 ^ k)
twice_shift q k = omega (arith, ap (λ (t : ℕ). q * t) (pow-suc 2 k))

-- `(q << k) | r` is a sum where `r` fits `k` bits.
pub or_disjoint : (k q r : ℕ) → r < 2 ^ k → bit_or (q * 2 ^ k) r ≡ q * 2 ^ k + r
or_disjoint zero q r fits = ground (arith, or-zero_below q q)
or_disjoint (suc k) q r fits =
    ground (arith, or_step (q * 2 ^ suc k) r, twice_shift q k, pow-suc 2 k, or_disjoint k q (r / 2))

and_low : (k q r : ℕ) → r < 2 ^ k → bit_and (q * 2 ^ k + r) (2 ^ k - 1) ≡ r
and_low zero q r fits = ground (arith, and-zero_below (q + 0) (q + 0), and-zero_below q q)
and_low (suc k) q r fits = ground (
  arith,
  and_step (q * 2 ^ suc k + r) (2 ^ suc k - 1),
  twice_shift q k,
  pow-suc 2 k,
  one-le-pow k 2,
  and_low k q (r / 2),
)

-- A mask of `k` ones keeps the remainder by `2 ^ k`.
pub and_mask : (k a : ℕ) → bit_and a (2 ^ k - 1) ≡ a % 2 ^ k
and_mask k a = ground (arith, one-le-pow k 2, and_low k (a / 2 ^ k) (a % 2 ^ k))
