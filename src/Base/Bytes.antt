-- ===== src/Base/Bytes.antt =====
-- The byte order of words: Rust's `to_be_bytes`, `from_be_bytes` and `to_le_bytes`, by the width.
use Prim.Native.Nat.{ℕ, zero, suc, ◌+◌, ◌*◌, ◌/◌, ◌%◌, ◌^◌, ◌<◌}
use mathlib.Core.Path.{◌≡◌, refl, ap, ap₂, ◌∙◌, subst}
use mathlib.Core.List.{List, [], ◌∷◌}
use native.Mathlib.Omega.{arith}
use native.Mathlib.Nat.{pow-suc, one-le-pow, add_comm, add-mul-div_right, div-eq_of_lt}
use pico_gnss.Base.Lists.{length, All, drop, slice, All-take, All-drop}

abbrev pub IsByte : ℕ → Type 0
IsByte b = b < 256

abbrev pub to_be_bytes : ℕ → ℕ → List ℕ
to_be_bytes zero w = []
to_be_bytes (suc n) w = (w / 256 ^ n % 256) ∷ to_be_bytes n w

abbrev pub from_be_bytes : List ℕ → ℕ
from_be_bytes [] = 0
from_be_bytes (b ∷ bs) = b * 256 ^ length bs + from_be_bytes bs

abbrev pub to_le_bytes : ℕ → ℕ → List ℕ
to_le_bytes zero w = []
to_le_bytes (suc n) w = (w % 256) ∷ to_le_bytes n (w / 256)

pub length-to_be_bytes : (n w : ℕ) → length (to_be_bytes n w) ≡ n
length-to_be_bytes zero w = refl
length-to_be_bytes (suc n) w = ap suc (length-to_be_bytes n w)

pub length-to_le_bytes : (n w : ℕ) → length (to_le_bytes n w) ≡ n
length-to_le_bytes zero w = refl
length-to_le_bytes (suc n) w = ap suc (length-to_le_bytes n (w / 256))

pub to_be_bytes-IsByte : (n w : ℕ) → All IsByte (to_be_bytes n w)
to_be_bytes-IsByte zero w = tt
to_be_bytes-IsByte (suc n) w = (omega arith, to_be_bytes-IsByte n w)

pub to_le_bytes-IsByte : (n w : ℕ) → All IsByte (to_le_bytes n w)
to_le_bytes-IsByte zero w = tt
to_le_bytes-IsByte (suc n) w = (omega arith, to_le_bytes-IsByte n (w / 256))

-- A word of 16, 32 or 64 bits is read back.
pub from_be_bytes_16 : (w : ℕ) → w < 2 ^ 16 → from_be_bytes (to_be_bytes 2 w) ≡ w
from_be_bytes_16 w h = omega arith

pub from_be_bytes_32 : (w : ℕ) → w < 2 ^ 32 → from_be_bytes (to_be_bytes 4 w) ≡ w
from_be_bytes_32 w h = omega arith

pub from_be_bytes_64 : (w : ℕ) → w < 2 ^ 64 → from_be_bytes (to_be_bytes 8 w) ≡ w
from_be_bytes_64 w h = omega arith

-- `[u8; 4]`, an array of fixed length.
pub record Quad : Type 0 where
  pub a : ℕ
  pub b : ℕ
  pub c : ℕ
  pub d : ℕ

abbrev pub quad : ℕ → ℕ → ℕ → ℕ → Quad
quad a b c d = record { a = a; b = b; c = c; d = d }

abbrev pub quad_bytes : Quad → List ℕ
quad_bytes q = q.a ∷ q.b ∷ q.c ∷ q.d ∷ []

abbrev pub IsQuad : Quad → Type 0
IsQuad q = IsByte q.a × IsByte q.b × IsByte q.c × IsByte q.d

pub from_be_bytes-lt : (bs : List ℕ) → All IsByte bs → from_be_bytes bs < 256 ^ length bs
from_be_bytes-lt [] h = omega arith
from_be_bytes-lt (b ∷ bs) h = grind (arith, pow-suc 256 (length bs), from_be_bytes-lt bs h.1)

-- What stands above the bytes that are written has no effect on them.
to_be_bytes-above : (n k r : ℕ) → to_be_bytes n (k * 256 ^ n + r) ≡ to_be_bytes n r
to_be_bytes-above zero k r = refl
to_be_bytes-above (suc n) k r = rw (regroup) (ap₂ ◌∷◌ digit (to_be_bytes-above n (k * 256) r))
  where
    regroup : k * 256 ^ suc n + r ≡ k * 256 * 256 ^ n + r
    regroup = omega (arith, ap (λ (t : ℕ). k * t) (pow-suc 256 n))

    digit : (k * 256 * 256 ^ n + r) / 256 ^ n % 256 ≡ r / 256 ^ n % 256
    digit =
        rw
          (
            add_comm (k * 256 * 256 ^ n) r,
            add-mul-div_right r (k * 256) (one-le-pow n 256 (omega arith)),
          )
          (omega arith)

-- Bytes that are read are written back, at every width.
pub to_be_bytes-from_be_bytes :
    (bs : List ℕ) → All IsByte bs → to_be_bytes (length bs) (from_be_bytes bs) ≡ bs
to_be_bytes-from_be_bytes [] h = refl
to_be_bytes-from_be_bytes (b ∷ bs) h =
    ap₂ ◌∷◌ digit
      (to_be_bytes-above (length bs) b (from_be_bytes bs) ∙ to_be_bytes-from_be_bytes bs h.1)
  where
    digit : (b * 256 ^ length bs + from_be_bytes bs) / 256 ^ length bs % 256 ≡ b
    digit =
        rw
          (
            add_comm (b * 256 ^ length bs) (from_be_bytes bs),
            add-mul-div_right (from_be_bytes bs) b (one-le-pow (length bs) 256 (omega arith)),
            div-eq_of_lt (from_be_bytes-lt bs h.1),
          )
          (omega arith)

-- `copy_from_slice` of four bytes into a zeroed array.
abbrev pub to_quad : List ℕ → Quad
to_quad (a ∷ b ∷ c ∷ d ∷ []) = quad a b c d
to_quad _ = quad 0 0 0 0

pub to_be_bytes_width :
    (n : ℕ) (bs : List ℕ) → length bs ≡ n → All IsByte bs → to_be_bytes n (from_be_bytes bs) ≡ bs
to_be_bytes_width n bs e h =
    subst (λ (k : ℕ). to_be_bytes k (from_be_bytes bs) ≡ bs) e (to_be_bytes-from_be_bytes bs h)

pub slice-IsByte : (bs : List ℕ) (at n : ℕ) → All IsByte bs → All IsByte (slice bs at n)
slice-IsByte bs at n h = All-take IsByte n (drop at bs) (All-drop IsByte at bs h)
