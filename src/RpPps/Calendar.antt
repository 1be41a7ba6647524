-- ===== src/RpPps/Calendar.antt =====
-- rp-pps/src/timesync.rs: days and seconds of a civil date. The `i64` arguments come from a `u16`
-- year and `u8` fields, for which no sum or product leaves the range.
pub mod Days
use pico_gnss.Base.{ℕ, ◌+◌, ◌-◌, ◌*◌, ◌/◌, ◌%◌, Bool, ◌&&◌, ◌||◌, not, ◌==◌, if◌then◌else◌}
use pico_gnss.Base.Int.{ℤ, pos, negsuc, ◌+ℤ◌, ◌-ℤ◌, ◌*ℤ◌, ◌/ℤ◌, leb_ℤ, ltb_ℤ}

-- From `let era` on, with the year and the month that begin in March.
unfoldable pub days_from_march : ℤ → ℤ → ℤ → ℤ
days_from_march y shifted d =
    let era = (if leb_ℤ (pos 0) y then y else y -ℤ pos 399) /ℤ 400 in
    let yoe = y -ℤ era *ℤ 400 in
    let doy = (shifted *ℤ 153 +ℤ pos 2) /ℤ 5 +ℤ d -ℤ pos 1 in
    let doe = yoe *ℤ 365 +ℤ yoe /ℤ 4 -ℤ yoe /ℤ 100 +ℤ doy in era *ℤ 146097 +ℤ doe -ℤ pos 719468

unfoldable pub days_from_civil : ℤ → ℤ → ℤ → ℤ
days_from_civil y m d =
    days_from_march (if leb_ℤ m (pos 2) then y -ℤ pos 1 else y)
      (if ltb_ℤ (pos 2) m then m -ℤ pos 3 else m +ℤ pos 9) d

unfoldable pub civil_to_unix : ℤ → ℤ → ℤ → ℤ → ℤ → ℤ → ℤ
civil_to_unix y mo d h mi s = days_from_civil y mo d *ℤ 86400 +ℤ h *ℤ 3600 +ℤ mi *ℤ 60 +ℤ s

unfoldable pub is_leap : ℕ → Bool
is_leap year = ((year % 4 == 0) && not (year % 100 == 0)) || (year % 400 == 0)

unfoldable pub days_in_month : ℕ → ℕ → ℕ
days_in_month month year =
    if (month == 1)
      || (month == 3)
      || (month == 5)
      || (month == 7)
      || (month == 8)
      || (month == 10)
      || (month == 12)
    then 31
    else if (month == 4) || (month == 6) || (month == 9) || (month == 11)
    then 30
    else if month == 2
    then if is_leap year then 29 else 28
    else 0
