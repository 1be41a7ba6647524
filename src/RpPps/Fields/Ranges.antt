-- ===== src/RpPps/Fields/Ranges.antt =====
-- What a parsed time and date can be.
use pico_gnss.Base.{
  ℕ, Bool, not, if◌then◌else◌, get_elem?, ◌≤◌, ◌≡◌, arith, List, Option, none, some, true, false,
}
use pico_gnss.RpPps.Calendar.{days_in_month}
use pico_gnss.RpPps.Calendar.Days.{IsDate}
use pico_gnss.RpPps.Fields.{
  parse_hhmmss, parse_zda_time_date, time_of, zda_of, split_comma, field_then, number_at, year_at,
  two_at, int_part, has_tag, u8_max,
}

-- A time of the day, with the leap second that a receiver may show.
abbrev pub IsTime : ℕ × ℕ × ℕ → Type 0
IsTime t = (t.0 ≤ 23) × (t.1 ≤ 59) × (t.2 ≤ 60)

time_of-IsTime : (a b c : Option ℕ) (t : ℕ × ℕ × ℕ) → time_of a b c ≡ some t → IsTime t
unfolding time_of
time_of-IsTime (some h) (some mi) (some s) t e = ground arith
time_of-IsTime none b c t e = cc
time_of-IsTime (some h) none c t e = cc
time_of-IsTime (some h) (some mi) none t e = cc

parse_hhmmss-IsTime : (field : List ℕ) (t : ℕ × ℕ × ℕ) → parse_hhmmss field ≡ some t → IsTime t
unfolding parse_hhmmss
parse_hhmmss-IsTime field t e =
    let i = int_part field in
    ground (arith, time_of-IsTime (two_at u8_max i 0) (two_at u8_max i 2) (two_at u8_max i 4) t)

field_then-eq-some :
    (fields : List (List ℕ)) (k : ℕ) (t : ℕ × ℕ × ℕ)
    → field_then parse_hhmmss fields k ≡ some t
    → IsTime t
unfolding field_then
field_then-eq-some fields k t e = found (get_elem? fields k) e
  where
    found :
        (o : Option (List ℕ))
        → elim o [ none ↦ none | some field ↦ parse_hhmmss field ] ≡ some t
        → IsTime t
    found none q = cc
    found (some field) q = parse_hhmmss-IsTime field t q

zda_of_parts :
    (time : Option (ℕ × ℕ × ℕ)) (day month year : Option ℕ) (t d : ℕ × ℕ × ℕ)
    → zda_of time day month year ≡ some (t, d)
    → (time ≡ some t)
      × (1980 ≤ d.2)
      × (1 ≤ d.1)
      × (d.1 ≤ 12)
      × (1 ≤ d.0)
      × (d.0 ≤ days_in_month d.1 d.2)
unfolding zda_of
zda_of_parts (some time) (some day) (some month) (some year) t d e = ground arith
zda_of_parts none day month year t d e = cc
zda_of_parts (some time) none month year t d e = cc
zda_of_parts (some time) (some day) none year t d e = cc
zda_of_parts (some time) (some day) (some month) none t d e = cc

-- Whatever the sentence is, a time that `parse_zda_time_date` accepts is a time of the day, with
-- 60 as the last second at most, and the date is a date of the Gregorian calendar from the year
-- 1980 on.
pub parse_zda_time_date-IsDate :
    (sentence : List ℕ) (t d : ℕ × ℕ × ℕ)
    → parse_zda_time_date sentence ≡ some (t, d)
    → IsTime t × (1980 ≤ d.2) × IsDate (record { year = d.2; month = d.1; day = d.0 })
unfolding parse_zda_time_date
parse_zda_time_date-IsDate sentence t d e =
    let fields = split_comma sentence in
    let (time, year, month, month₂, day, day₂) =
      zda_of_parts (field_then parse_hhmmss fields 1) (number_at u8_max fields 2)
        (number_at u8_max fields 3) (year_at fields 4) t d (tagged (has_tag sentence 90 68 65) e) in
    (
      field_then-eq-some fields 1 t time,
      year,
      record { year_fits = omega arith; month_fits = (month, month₂); day_fits = (day, day₂) },
    )
  where
    tagged :
        (b : Bool) {o : Option ((ℕ × ℕ × ℕ) × (ℕ × ℕ × ℕ))} {r : (ℕ × ℕ × ℕ) × (ℕ × ℕ × ℕ)}
        → (if not b then none else o) ≡ some r
        → o ≡ some r
    tagged true q = q
    tagged false q = cc
