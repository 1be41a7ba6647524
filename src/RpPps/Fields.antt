-- ===== src/RpPps/Fields.antt =====
-- rp-pps/src/timesync.rs: time and date out of the fields of RMC and ZDA sentences, with the
-- built-in parser. A `&str` is the list of its bytes; a cut inside of a character gives `None` in
-- the source, and no digits here.
pub mod Ranges
pub mod Print
use pico_gnss.Base.{
  ℕ, suc, zero, ◌+◌, ◌-◌, ◌*◌, ◌<◌, ◌≤◌, Bool, true, false, not, ◌&&◌, ◌||◌, List, [], ◌∷◌, Option,
  none, some, ltb, leb, ◌==◌, if◌then◌else◌, length, get_elem?, slice,
}
use pico_gnss.RpPps.Calendar.{days_in_month}

abbrev pub dot : ℕ
dot = 46

abbrev pub comma : ℕ
comma = 44

abbrev pub plus : ℕ
plus = 43

unfoldable pub is_digit : ℕ → Bool
is_digit c = leb 48 c && leb c 57

-- The digits of `from_str`, each step checked against the largest value.
unfoldable pub digits_value : ℕ → List ℕ → ℕ → Option ℕ
digits_value max_value [] acc = some acc
digits_value max_value (c ∷ cs) acc =
    let next = acc * 10 + (c - 48) in
    let rest = digits_value max_value cs next in
    if not (is_digit c) then none else if ltb max_value next then none else rest

-- `str::parse` of an unsigned integer: one `+` may lead, and some digit must follow.
unfoldable pub parse_uint : ℕ → List ℕ → Option ℕ
parse_uint max_value [] = none
parse_uint max_value (c ∷ []) = digits_value max_value (c ∷ []) 0
parse_uint max_value (c ∷ d ∷ cs) =
    if c == plus then digits_value max_value (d ∷ cs) 0 else digits_value max_value (c ∷ d ∷ cs) 0

abbrev pub u8_max : ℕ
u8_max = 255

abbrev pub u16_max : ℕ
u16_max = 65535

-- `get(at..at + 2)` and its `parse`.
unfoldable pub two_at : ℕ → List ℕ → ℕ → Option ℕ
two_at max_value field at = parse_uint max_value (slice field at 2)

-- `field.split('.').next()`.
pub int_part : List ℕ → List ℕ
int_part [] = []
int_part (c ∷ cs) = if c == dot then [] else c ∷ int_part cs

-- The test behind the three `parse`s of `parse_hhmmss`.
time_of : Option ℕ → Option ℕ → Option ℕ → Option (ℕ × ℕ × ℕ)
time_of (some h) (some mi) (some s) =
    if ltb 23 h || ltb 59 mi || ltb 60 s then none else some (h, mi, s)
time_of _ _ _ = none

pub parse_hhmmss : List ℕ → Option (ℕ × ℕ × ℕ)
parse_hhmmss field =
    let i = int_part field in
    if ltb (length i) 6
    then none
    else time_of (two_at u8_max i 0) (two_at u8_max i 2) (two_at u8_max i 4)

unfoldable pub date_of : Option ℕ → Option ℕ → Option ℕ → Option (ℕ × ℕ × ℕ)
date_of (some d) (some mo) (some yy) =
    if not (leb 1 d && leb d 31) || not (leb 1 mo && leb mo 12)
    then none
    else some (d, mo, 2000 + yy)
date_of _ _ _ = none

unfoldable pub parse_ddmmyy : List ℕ → Option (ℕ × ℕ × ℕ)
parse_ddmmyy field =
    if ltb (length field) 6
    then none
    else date_of (two_at u8_max field 0) (two_at u8_max field 2) (two_at u16_max field 4)

-- `sentence.split(',')`: the first field and the others.
split_first : List ℕ → List ℕ × List (List ℕ)
split_first [] = ([], [])
split_first (c ∷ cs) =
    let (field, others) = split_first cs in
    if c == comma then ([], field ∷ others) else (c ∷ field, others)

pub split_comma : List ℕ → List (List ℕ)
split_comma s = let (field, others) = split_first s in field ∷ others

-- `sentence.get(3..6) == Some(tag)`.
pub has_tag : List ℕ → ℕ → ℕ → ℕ → Bool
has_tag sentence a b c = elim (slice sentence 3 3) [
  | [] ↦ false
  | x ∷ xs ↦ elim xs [
    | [] ↦ false
    | y ∷ ys ↦ elim ys [ [] ↦ false | z ∷ zs ↦ (x == a) && (y == b) && (z == c) ]
  ]
]

-- `nth(k).and_then(parse)`.
pub field_then : (List ℕ → Option (ℕ × ℕ × ℕ)) → List (List ℕ) → ℕ → Option (ℕ × ℕ × ℕ)
field_then parse fields k = elim (get_elem? fields k) [ none ↦ none | some field ↦ parse field ]

pair_of : Option (ℕ × ℕ × ℕ) → Option (ℕ × ℕ × ℕ) → Option ((ℕ × ℕ × ℕ) × (ℕ × ℕ × ℕ))
pair_of (some time) (some date) = some (time, date)
pair_of _ _ = none

-- `b"RMC"` and `b"ZDA"`.
pub parse_rmc_time_date : List ℕ → Option ((ℕ × ℕ × ℕ) × (ℕ × ℕ × ℕ))
parse_rmc_time_date sentence =
    let fields = split_comma sentence in
    if not (has_tag sentence 82 77 67)
    then none
    else pair_of (field_then parse_hhmmss fields 1) (field_then parse_ddmmyy fields 9)

pub number_at : ℕ → List (List ℕ) → ℕ → Option ℕ
number_at max_value fields k = elim (get_elem? fields k) [
  | none ↦ none
  | some field ↦ parse_uint max_value field
]

-- The year of four digits.
pub year_at : List (List ℕ) → ℕ → Option ℕ
year_at fields k = elim (get_elem? fields k) [
  | none ↦ none
  | some field ↦ if length field == 4 then parse_uint u16_max field else none
]

zda_of : Option (ℕ × ℕ × ℕ) → Option ℕ → Option ℕ → Option ℕ → Option ((ℕ × ℕ × ℕ) × (ℕ × ℕ × ℕ))
zda_of (some time) (some day) (some month) (some year) =
    if ltb year 1980
    then none
    else if not (leb 1 month && leb month 12) || ltb day 1 || ltb (days_in_month month year) day
    then none
    else some (time, (day, month, year))
zda_of _ _ _ _ = none

pub parse_zda_time_date : List ℕ → Option ((ℕ × ℕ × ℕ) × (ℕ × ℕ × ℕ))
parse_zda_time_date sentence =
    let fields = split_comma sentence in
    if not (has_tag sentence 90 68 65)
    then none
    else zda_of (field_then parse_hhmmss fields 1) (number_at u8_max fields 2)
        (number_at u8_max fields 3) (year_at fields 4)
