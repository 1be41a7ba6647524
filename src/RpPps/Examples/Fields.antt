-- ===== src/RpPps/Examples/Fields.antt =====
-- The theorems on the fields of ZDA, and a date that the parser of RMC accepts.
use pico_gnss.Base.{ℕ, ◌≡◌, refl, arith, some, List, [], ◌∷◌}
use pico_gnss.RpPps.Calendar.{days_in_month, is_leap}
use pico_gnss.RpPps.Calendar.Days.{IsDate}
use pico_gnss.RpPps.Fields.{
  parse_zda_time_date, parse_ddmmyy, two_at, date_of, parse_uint, digits_value, is_digit,
}
use pico_gnss.RpPps.Fields.Print.{zda, parse_zda_time_date-zda}

measured-IsDate : IsDate (record { year = 2026; month = 8; day = 18 })
unfolding days_in_month is_leap
measured-IsDate = record {
  year_fits = omega arith;
  month_fits = omega arith;
  day_fits = omega arith;
}

-- `$GPZDA,024247.000,18,08,2026,,*56`.
abbrev pub measured : List ℕ
measured = zda 71 80 (2, 42, 47) (48 ∷ 48 ∷ 48 ∷ []) (18, 8, 2026) (44 ∷ 42 ∷ 53 ∷ 54 ∷ [])

pub measured_read : parse_zda_time_date measured ≡ some ((2, 42, 47), (18, 8, 2026))
measured_read =
    parse_zda_time_date-zda 71 80 (2, 42, 47) (18, 8, 2026) (48 ∷ 48 ∷ 48 ∷ [])
      (44 ∷ 42 ∷ 53 ∷ 54 ∷ []) (omega arith) (omega arith) (omega arith) (omega arith) (omega arith)
      measured-IsDate

parse_zda_time_date-zda_example : parse_zda_time_date measured ≡ some ((2, 42, 47), (18, 8, 2026))
parse_zda_time_date-zda_example =
    parse_zda_time_date-zda 71 80 (2, 42, 47) (18, 8, 2026) (48 ∷ 48 ∷ 48 ∷ [])
      (44 ∷ 42 ∷ 53 ∷ 54 ∷ []) (omega arith) (omega arith) (omega arith) (omega arith) (omega arith)
      measured-IsDate

-- The 31st of February.
no_such_date : parse_ddmmyy (51 ∷ 49 ∷ 48 ∷ 50 ∷ 50 ∷ 54 ∷ []) ≡ some (31, 2, 2026)
unfolding parse_ddmmyy two_at date_of parse_uint digits_value is_digit
no_such_date = refl
