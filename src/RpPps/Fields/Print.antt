-- ===== src/RpPps/Fields/Print.antt =====
-- Fields as a receiver writes them are read back.
use pico_gnss.Base.{
  ℕ, ◌+◌, ◌/◌, ◌%◌, ◌<◌, ◌≤◌, ◌≡◌, ◌≢◌, refl, ap, ◌∙◌, arith, List, [], ◌∷◌, ◌++◌, All, some,
}
use pico_gnss.RpPps.Calendar.{days_in_month}
use pico_gnss.RpPps.Calendar.Days.{IsDate}
use pico_gnss.RpPps.Fields.{
  dot, comma, u8_max, u16_max, is_digit, digits_value, parse_uint, two_at, int_part, parse_hhmmss,
  time_of, split_first, split_comma, has_tag, field_then, number_at, year_at, zda_of,
  parse_zda_time_date,
}
use pico_gnss.RpPps.Fields.Ranges.{IsTime}

-- `{:02}` and `{:04}`.
abbrev pub two : ℕ → List ℕ → List ℕ
two n rest = (48 + n / 10) ∷ (48 + n % 10) ∷ rest

abbrev pub four : ℕ → List ℕ
four n = two (n / 100) (two (n % 100) [])

-- `hhmmss.` and a fraction.
abbrev pub hhmmss : ℕ × ℕ × ℕ → List ℕ → List ℕ
hhmmss t fraction = two t.0 (two t.1 (two t.2 (dot ∷ fraction)))

parse_uint-two : (n : ℕ) → n < 100 → parse_uint u8_max (two n []) ≡ some n
unfolding parse_uint digits_value is_digit
parse_uint-two n h = ground arith

parse_uint-four : (n : ℕ) → n < 10000 → parse_uint u16_max (four n) ≡ some n
unfolding parse_uint digits_value is_digit
parse_uint-four n h = ground arith

int_part-hhmmss :
    (t : ℕ × ℕ × ℕ) (fraction : List ℕ)
    → int_part (hhmmss t fraction) ≡ two t.0 (two t.1 (two t.2 []))
unfolding int_part
int_part-hhmmss t fraction = ground arith

parse_hhmmss-hhmmss :
    (t : ℕ × ℕ × ℕ) (fraction : List ℕ) → IsTime t → parse_hhmmss (hhmmss t fraction) ≡ some t
unfolding parse_hhmmss two_at time_of
parse_hhmmss-hhmmss t fraction h =
    ground (
      arith,
      int_part-hhmmss t fraction,
      parse_uint-two t.0,
      parse_uint-two t.1,
      parse_uint-two t.2,
    )

split_comma-append :
    (field rest : List ℕ)
    → All (λ c. c ≢ comma) field
    → split_comma (field ++ comma ∷ rest) ≡ field ∷ split_comma rest
unfolding split_comma split_first
split_comma-append [] rest h = refl
split_comma-append (c ∷ cs) rest (p, h) = ground (arith, split_comma-append cs rest h)

-- `$xxZDA,hhmmss.sss,dd,mm,yyyy,` and what follows.
pub zda : ℕ → ℕ → ℕ × ℕ × ℕ → List ℕ → ℕ × ℕ × ℕ → List ℕ → List ℕ
zda a b t fraction d rest =
    (36 ∷ a ∷ b ∷ 90 ∷ 68 ∷ 65 ∷ [])
    ++ comma
      ∷ (hhmmss t fraction
          ++ comma ∷ (two d.0 [] ++ comma ∷ (two d.1 [] ++ comma ∷ (four d.2 ++ comma ∷ rest))))

days_in_month-le : (m y : ℕ) → days_in_month m y ≤ 31
unfolding days_in_month
days_in_month-le m y = ground arith

zda_of-eq :
    (t d : ℕ × ℕ × ℕ)
    → 1980 ≤ d.2
    → IsDate (record { year = d.2; month = d.1; day = d.0 })
    → zda_of (some t) (some d.0) (some d.1) (some d.2) ≡ some (t, d)
unfolding zda_of
zda_of-eq t d lo date = ground arith

module _ (a b : ℕ) (t d : ℕ × ℕ × ℕ) (fraction rest : List ℕ) (talker : (a ≢ comma) × (b ≢ comma))
    (plain : All (λ c. c ≢ comma) fraction) where
  hhmmss_plain : All (λ c. c ≢ comma) (hhmmss t fraction)
  hhmmss_plain = (
    omega arith,
    (omega arith, (omega arith, (omega arith, (omega arith, (omega arith, (omega arith, plain)))))),
  )

  fields :
      split_comma (zda a b t fraction d rest)
      ≡ (36 ∷ a ∷ b ∷ 90 ∷ 68 ∷ 65 ∷ [])
        ∷ hhmmss t fraction
        ∷ two d.0 []
        ∷ two d.1 []
        ∷ four d.2
        ∷ split_comma rest
  unfolding zda
  fields =
      let header = 36 ∷ a ∷ b ∷ 90 ∷ 68 ∷ 65 ∷ [] in
      let tail₁ = four d.2 ++ comma ∷ rest in
      let tail₂ = two d.1 [] ++ comma ∷ tail₁ in
      let tail₃ = two d.0 [] ++ comma ∷ tail₂ in
      split_comma-append header (hhmmss t fraction ++ comma ∷ tail₃) (omega (arith, talker))
      ∙ ap (λ l. header ∷ l)
          (split_comma-append (hhmmss t fraction) tail₃ hhmmss_plain
            ∙ ap (λ l. hhmmss t fraction ∷ l)
                (split_comma-append (two d.0 []) tail₂ (omega arith)
                  ∙ ap (λ l. two d.0 [] ∷ l)
                      (split_comma-append (two d.1 []) tail₁ (omega arith)
                        ∙ ap (λ l. two d.1 [] ∷ l)
                            (split_comma-append (four d.2) rest (omega arith)))))

  -- A ZDA sentence of any two-byte talker without a comma, with a time of the day and a fraction
  -- without a comma and a date of the calendar from 1980 to 9999, is read back as that time and
  -- that date.
  pub parse_zda_time_date-zda :
      IsTime t
      → 1980 ≤ d.2
      → d.2 < 10000
      → IsDate (record { year = d.2; month = d.1; day = d.0 })
      → parse_zda_time_date (zda a b t fraction d rest) ≡ some (t, d)
  unfolding parse_zda_time_date field_then number_at year_at has_tag zda
  parse_zda_time_date-zda time lo hi date = rw fields (
      rw
        (
          parse_hhmmss-hhmmss t fraction time,
          parse_uint-two d.0 (omega (arith, days_in_month-le d.1 d.2)),
          parse_uint-two d.1 (omega arith),
          parse_uint-four d.2 hi,
        )
        (zda_of-eq t d lo date))
