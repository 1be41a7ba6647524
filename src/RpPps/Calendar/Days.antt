-- ===== src/RpPps/Calendar/Days.antt =====
-- The count of days follows the calendar from each date to the next.
use native.Mathlib.Decide.{dec_lt}
use pico_gnss.Base.{
  ℕ, zero, suc, lt→ltb, le→ltb_false, ◌+◌, ◌-◌, ◌*◌, ◌/◌, ◌%◌, ◌<◌, ◌≤◌, ◌≡◌, ap, arith, true,
  if◌then◌else◌, ltb,
}
use pico_gnss.Base.Int.{
  ℤ, pos, pos_part, neg_part, ◌+ℤ◌, ◌-ℤ◌, ◌*ℤ◌, ◌/ℤ◌, int_laws, trunc_parts, parts_apart, leb_ℤ,
}
use pico_gnss.RpPps.Calendar.{days_from_march, days_from_civil, is_leap, days_in_month}

pub record Date : Type 0 where
  pub year : ℕ
  pub month : ℕ
  pub day : ℕ

-- A date of the Gregorian calendar, from the year 1 on.
pub record IsDate (t : Date) : Type 0 where
  pub year_fits : 1 ≤ t.year
  pub month_fits : (1 ≤ t.month) × (t.month ≤ 12)
  pub day_fits : (1 ≤ t.day) × (t.day ≤ days_in_month t.month t.year)

-- The next day by the lengths of the months.
pub next_day : Date → Date
next_day t =
    if ltb t.day (days_in_month t.month t.year)
    then record { year = t.year; month = t.month; day = t.day + 1 }
    else if ltb t.month 12
    then record { year = t.year; month = t.month + 1; day = 1 }
    else record { year = t.year + 1; month = 1; day = 1 }

unfoldable pub days : Date → ℤ
days t = days_from_civil (pos t.year) (pos t.month) (pos t.day)

-- From March on, and the same for January and February of the year before.
days_of : ℕ → ℕ → ℕ → ℕ
days_of y shifted d =
    y / 400 * 146097 + (y % 400 * 365 + y % 400 / 4 - y % 400 / 100 + (shifted * 153 + 2) / 5 + d)

from_zero : (y : ℕ) → leb_ℤ (pos 0) (pos y) ≡ true
from_zero y = ground arith

days_from_march-eq :
    (y shifted d : ℕ)
    → pos_part (days_from_march (pos y) (pos shifted) (pos d)) + 719469
      ≡ neg_part (days_from_march (pos y) (pos shifted) (pos d)) + days_of y shifted d
unfolding days_from_march days_of
days_from_march-eq y shifted d =
    let era = pos y /ℤ 400 in
    let yoe = pos y -ℤ era *ℤ 400 in
    let doy = pos shifted *ℤ 153 +ℤ pos 2 in
    rw (from_zero y) (
      omega (
        int_laws,
        trunc_parts (pos y) 400,
        trunc_parts yoe 4,
        trunc_parts yoe 100,
        trunc_parts doy 5,
        parts_apart era,
        parts_apart yoe,
        parts_apart doy,
        parts_apart (yoe /ℤ 4),
        parts_apart (yoe /ℤ 100),
        parts_apart (doy /ℤ 5),
      ))

days_late :
    (y m d : ℕ)
    → 3 ≤ m
    → days_from_civil (pos y) (pos m) (pos d) ≡ days_from_march (pos y) (pos (m - 3)) (pos d)
unfolding days_from_civil ◌+ℤ◌ ◌-ℤ◌
days_late y m d h = ground arith

days_early :
    (y m d : ℕ)
    → m ≤ 2
    → days_from_civil (pos (y + 1)) (pos m) (pos d) ≡ days_from_march (pos y) (pos (m + 9)) (pos d)
unfolding days_from_civil ◌+ℤ◌ ◌-ℤ◌
days_early y m d h = ground arith

-- The days of a date since the first of March of the year 0.
abbrev ordinal : ℕ → ℕ → ℕ → ℕ
ordinal y m d = if ltb m 3 then days_of (y - 1) (m + 9) d else days_of y (m - 3) d

days-ordinal :
    (y m d : ℕ)
    → 1 ≤ y
    → pos_part (days_from_civil (pos y) (pos m) (pos d)) + 719469
      ≡ neg_part (days_from_civil (pos y) (pos m) (pos d)) + ordinal y m d
days-ordinal y m d h = elim (dec_lt m 3) [
  | yes early ↦
      rw
        (
          lt→ltb m 3 early,
          ap (λ (k : ℕ). days_from_civil (pos k) (pos m) (pos d)) {x = y} {y = y - 1 + 1}
              (omega arith),
          days_early (y - 1) m d (omega arith),
        )
        (days_from_march-eq (y - 1) (m + 9) d)
  | no late ↦
      rw (le→ltb_false m 3 (omega arith), days_late y m d (omega arith))
        (days_from_march-eq y (m - 3) d)
]

-- A day more within a month, the first of the next month, and the first of the next year.
same_month : (y m d : ℕ) → ordinal y m (d + 1) ≡ ordinal y m d + 1
unfolding days_of
same_month y m d = ground arith

february : (y : ℕ) → 1 ≤ y → ordinal y 3 1 ≡ ordinal y 2 (days_in_month 2 y) + 1
unfolding days_of days_in_month is_leap
february y h = ground arith

next_month :
    (y m : ℕ) → 1 ≤ y → 1 ≤ m → m ≤ 11 → ordinal y (m + 1) 1 ≡ ordinal y m (days_in_month m y) + 1
unfolding days_of days_in_month is_leap
next_month y zero h lo hi = absurd (omega arith)
next_month y (suc zero) h lo hi = omega arith
next_month y (suc (suc zero)) h lo hi = february y h
next_month y (suc (suc (suc zero))) h lo hi = omega arith
next_month y (suc (suc (suc (suc zero)))) h lo hi = omega arith
next_month y (suc (suc (suc (suc (suc zero))))) h lo hi = omega arith
next_month y (suc (suc (suc (suc (suc (suc zero)))))) h lo hi = omega arith
next_month y (suc (suc (suc (suc (suc (suc (suc zero))))))) h lo hi = omega arith
next_month y (suc (suc (suc (suc (suc (suc (suc (suc zero)))))))) h lo hi = omega arith
next_month y (suc (suc (suc (suc (suc (suc (suc (suc (suc zero))))))))) h lo hi = omega arith
next_month y (suc (suc (suc (suc (suc (suc (suc (suc (suc (suc zero)))))))))) h lo hi = omega arith
next_month y (suc (suc (suc (suc (suc (suc (suc (suc (suc (suc (suc zero))))))))))) h lo hi =
    omega arith
next_month y (suc (suc (suc (suc (suc (suc (suc (suc (suc (suc (suc (suc m)))))))))))) h lo hi =
    absurd (omega arith)

next_year : (y : ℕ) → ordinal (y + 1) 1 1 ≡ ordinal y 12 (days_in_month 12 y) + 1
unfolding days_of days_in_month
next_year y = ground arith

-- The end of a month, and of a year.
month_end :
    (t : Date)
    → IsDate t
    → t.day ≡ days_in_month t.month t.year
    → t.month < 12
    → ordinal t.year (t.month + 1) 1 ≡ ordinal t.year t.month t.day + 1
month_end t h e more = rw e (next_month t.year t.month h.year_fits h.month_fits.0 (omega arith))

year_end :
    (t : Date)
    → t.day ≡ days_in_month t.month t.year
    → t.month ≡ 12
    → ordinal (t.year + 1) 1 1 ≡ ordinal t.year t.month t.day + 1
year_end t e m = rw (e, m) (next_year t.year)

-- For a date of the year 1 or later, `days_from_civil` of the next day, by the lengths of the
-- months and the leap years, is one more.
pub days-next_day : (t : Date) → IsDate t → days (next_day t) ≡ days t +ℤ pos 1
unfolding days next_day
days-next_day t h = elim (dec_lt t.day (days_in_month t.month t.year)) [
  | yes inside ↦
      rw (lt→ltb t.day (days_in_month t.month t.year) inside)
        (step t.year t.month (t.day + 1) h.year_fits (same_month t.year t.month t.day))
  | no last ↦
      let e : t.day ≡ days_in_month t.month t.year = omega (arith, h.day_fits) in
      let stop = le→ltb_false t.day (days_in_month t.month t.year) (omega arith) in
      elim (dec_lt t.month 12) [
        | yes more ↦
            rw (stop, lt→ltb t.month 12 more)
              (step t.year (t.month + 1) 1 h.year_fits (month_end t h e more))
        | no december ↦
            rw (stop, le→ltb_false t.month 12 (omega arith))
              (step (t.year + 1) 1 1 (omega arith) (year_end t e (omega (arith, h.month_fits))))
      ]
]
  where
    step :
        (y m d : ℕ)
        → 1 ≤ y
        → ordinal y m d ≡ ordinal t.year t.month t.day + 1
        → days_from_civil (pos y) (pos m) (pos d)
          ≡ days_from_civil (pos t.year) (pos t.month) (pos t.day) +ℤ pos 1
    step y m d k e =
        omega (int_laws, days-ordinal y m d k, days-ordinal t.year t.month t.day h.year_fits)

days_in_month_le : (m y : ℕ) → days_in_month m y ≤ 31
unfolding days_in_month is_leap
days_in_month_le m y = ground arith

ordinal_range :
    (y m d : ℕ)
    → 1678 ≤ y
    → y ≤ 2261
    → (1 ≤ m) × (m ≤ 12)
    → (1 ≤ d) × (d ≤ 31)
    → (612_819 ≤ ordinal y m d) × (ordinal y m d ≤ 826_119)
unfolding days_of
ordinal_range y m d lo hi month day = ground arith

-- The days of the years 1678 to 2261.
pub days_range :
    (t : Date)
    → IsDate t
    → 1678 ≤ t.year
    → t.year ≤ 2261
    → (pos_part (days t) ≤ 106_650) × (neg_part (days t) ≤ 106_650)
unfolding days
days_range t h lo hi = omega (
  arith,
  days-ordinal t.year t.month t.day h.year_fits,
  ordinal_range t.year t.month t.day lo hi h.month_fits
      (h.day_fits.0, omega (arith, h.day_fits.1, days_in_month_le t.month t.year)),
  parts_apart (days_from_civil (pos t.year) (pos t.month) (pos t.day)),
)
