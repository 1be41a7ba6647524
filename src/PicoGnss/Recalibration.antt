-- ===== src/PicoGnss/Recalibration.antt =====
-- pico-gnss/src/main.rs: `recal_k`, the measurement of the offset between the two capture counters.
-- What the captures and the flags give in a round is an argument.
pub mod Means
pub mod Bounds
use pico_gnss.Base.{
  ℕ, ◌+◌, ltb, if◌then◌else◌, Bool, not, ◌||◌, Option, none, some, List, [], ◌∷◌, length, take,
  ◌==◌,
}
use pico_gnss.Base.Int.{ℤ, pos, negsuc, ◌-ℤ◌, ltb_ℤ, leb_ℤ, abs_ℕ, to_i32}
use pico_gnss.RpPps.Capture.{wrapping_sub}
use pico_gnss.RpPps.Phase.{calibrate_loopback_offset}

abbrev pub recal_samples : ℕ
recal_samples = 6

abbrev pub recal_sample_tick_gate : ℕ
recal_sample_tick_gate = 64

-- A round of the `for` loop: the capture of SM2, if one came before the deadline; whether the edge
-- was published behind it; and the counter of SM0 that was read then.
pub record RecalRound : Type 0 where
  pub c2 : Option ℕ
  pub published : Bool
  pub c0 : ℕ

-- The difference of a pair, as `i32`.
abbrev pub lag : ℕ × ℕ → ℤ
lag (c0, c2) = to_i32 (wrapping_sub c0 c2)

-- `d.wrapping_sub(k as i32)`: the wrap is that of the unsigned words.
abbrev pub drift : ℕ → ℕ × ℕ → ℤ
drift k (c0, c2) = to_i32 (wrapping_sub (wrapping_sub c0 c2) k)

abbrev pub is_far : ℕ → ℕ × ℕ → Bool
is_far k pair = ltb recal_sample_tick_gate (abs_ℕ (drift k pair))

-- The `continue`s before the gate: no edge published, no counter, or the first round.
abbrev pub not_used : Bool → ℕ → ℕ → Bool
not_used published c0 i = not published || ((c0 == 0) || (i == 0))

-- The samples of the rounds from number `i` on. The `heapless::Vec` has room for all of them.
unfoldable pub collect : ℕ → ℕ → List RecalRound → List (ℕ × ℕ)
collect k i [] = []
collect k i (r ∷ rounds) =
    let rest = collect k (i + 1) rounds in
    elim r.c2 [
      | none ↦ []
      | some c2 ↦
          if not_used r.published r.c0 i || is_far k (r.c0, c2) then rest else (r.c0, c2) ∷ rest
    ]

-- `lo` and `hi`, from `i32::MAX` and `i32::MIN`.
unfoldable pub lowest : ℤ → List (ℕ × ℕ) → ℤ
lowest lo [] = lo
lowest lo (pair ∷ samples) = lowest (if leb_ℤ lo (lag pair) then lo else lag pair) samples

unfoldable pub highest : ℤ → List (ℕ × ℕ) → ℤ
highest hi [] = hi
highest hi (pair ∷ samples) = highest (if leb_ℤ (lag pair) hi then hi else lag pair) samples

unfoldable pub spread : List (ℕ × ℕ) → ℤ
spread samples = highest (negsuc 2_147_483_647) samples -ℤ lowest (pos 2_147_483_647) samples

-- The part behind the loop.
unfoldable pub evaluate : ℕ → List (ℕ × ℕ) → ℕ
evaluate k samples =
    if ltb (length samples) 3
    then k
    else if ltb_ℤ (pos 2) (spread samples)
    then k
    else elim (calibrate_loopback_offset samples) [
      | none ↦ k
      | some nk ↦ if ltb 500 (abs_ℕ (to_i32 (wrapping_sub nk k))) then k else nk
    ]

unfoldable pub recal_k : ℕ → List RecalRound → ℕ
recal_k k rounds = evaluate k (collect k 0 (take recal_samples rounds))
