-- ===== src/RpPps/TimeSync/Seconds.antt =====
-- Successive seconds give successive epochs, over the ends of days, months and years.
use native.Mathlib.Decide.{dec_lt}
use pico_gnss.Base.{
  ℕ, ◌+◌, ◌<◌, ◌≤◌, ◌≡◌, refl, ap, ◌∙◌, arith, Option, none, some, if◌then◌else◌, ltb, lt→ltb,
  le→ltb_false,
}
use pico_gnss.Base.Int.{
  ℤ, pos, pos_part, neg_part, ◌+ℤ◌, ◌*ℤ◌, int_laws, parts_of_eq, parts_apart, to_i64,
}
use pico_gnss.Base.Int.Scale.{to_i64_lem}
use pico_gnss.RpPps.Calendar.{civil_to_unix}
use pico_gnss.RpPps.Calendar.Days.{Date, IsDate, next_day, days, days-next_day, days_range}
use pico_gnss.RpPps.TimeSync.{
  SyncEpoch, PpsNmeaAssociation, same_second, nmea_is_previous_second, nmea_is_next_second,
  edge_offset_seconds, PpsTimeSync, on_pps_edge, set_date, epoch, on_time,
}

-- A second of UTC without leap seconds.
pub record Second : Type 0 where
  pub date : Date
  pub h : ℕ
  pub mi : ℕ
  pub s : ℕ

pub record IsSecond (t : Second) : Type 0 where
  pub date_fits : IsDate t.date
  pub h_fits : t.h < 24
  pub mi_fits : t.mi < 60
  pub s_fits : t.s < 60

pub next_second : Second → Second
next_second t =
    if ltb t.s 59
    then record { date = t.date; h = t.h; mi = t.mi; s = t.s + 1 }
    else if ltb t.mi 59
    then record { date = t.date; h = t.h; mi = t.mi + 1; s = 0 }
    else if ltb t.h 23
    then record { date = t.date; h = t.h + 1; mi = 0; s = 0 }
    else record { date = next_day t.date; h = 0; mi = 0; s = 0 }

pub unix : Second → ℤ
unix t =
    civil_to_unix (pos t.date.year) (pos t.date.month) (pos t.date.day) (pos t.h) (pos t.mi)
      (pos t.s)

pub unix-next_second : (t : Second) → IsSecond t → unix (next_second t) ≡ unix t +ℤ pos 1
unfolding unix next_second civil_to_unix days
unix-next_second t k = elim (dec_lt t.s 59) [
  | yes a ↦ rw (lt→ltb t.s 59 a) (omega int_laws)
  | no a ↦
      let stop = le→ltb_false t.s 59 (omega arith) in
      elim (dec_lt t.mi 59) [
        | yes b ↦ rw (stop, lt→ltb t.mi 59 b) (omega (int_laws, k.s_fits))
        | no b ↦
            let stop₂ = le→ltb_false t.mi 59 (omega arith) in
            elim (dec_lt t.h 23) [
              | yes c ↦ rw (stop, stop₂, lt→ltb t.h 23 c) (omega (int_laws, k.s_fits, k.mi_fits))
              | no c ↦
                  rw (stop, stop₂, le→ltb_false t.h 23 (omega arith))
                    (omega (
                      int_laws,
                      parts_of_eq _ _ (days-next_day t.date k.date_fits),
                      k.s_fits,
                      k.mi_fits,
                      k.h_fits,
                    ))
            ]
      ]
]

-- The date, the edge and the time of one second, as they come from a receiver.
pub one_second : PpsTimeSync → Second → ℕ × ℕ → PpsTimeSync × Option SyncEpoch
one_second self t edge =
    on_time (on_pps_edge (set_date self t.date.year t.date.month t.date.day) edge.0 edge.1) t.h t.mi
      t.s

-- The epoch of a second, and what is left of the edge.
pub one_second-eq :
    (self : PpsTimeSync) (t : Second) (edge : ℕ × ℕ)
    → one_second self t edge ≡ (
      record {
        association = self.association;
        last_date = some (t.date.year, t.date.month, t.date.day);
        pending = none;
      },
      some (record {
        capture_ns = edge.0;
        query_ns = edge.1;
        unix_ns = to_i64 ((unix t +ℤ edge_offset_seconds self.association) *ℤ 1_000_000_000);
      }),
    )
unfolding one_second on_time on_pps_edge set_date epoch unix
one_second-eq self t edge = refl

offset_small :
    (a : PpsNmeaAssociation)
    → pos_part (edge_offset_seconds a) + neg_part (edge_offset_seconds a) ≤ 1
unfolding edge_offset_seconds
offset_small same_second = omega arith
offset_small nmea_is_previous_second = omega arith
offset_small nmea_is_next_second = omega arith

-- In the years 1678 to 2261 the seconds of UTC are in range of nanoseconds of `i64`, with one more
-- on both sides.
unix_fits :
    (t : Second)
    → IsSecond t
    → 1678 ≤ t.date.year
    → t.date.year ≤ 2261
    → (pos_part (unix t) < 9_214_646_400) × (neg_part (unix t) ≤ 9_214_560_000)
unfolding unix civil_to_unix days
unix_fits t k lo hi = omega (
  int_laws,
  k.s_fits,
  k.mi_fits,
  k.h_fits,
  days_range t.date k.date_fits lo hi,
  parts_apart (unix t),
)

-- For a date of the years 1678 to 2261, whose nanoseconds fit an `i64`, and a time without leap
-- second, two successive seconds that each bring their edge give two epochs: each carries its own
-- edge, the first is its second moved by the association, and they are exactly one second apart,
-- over the ends of days, months and years and for every association.
pub one_second_twice :
    (self : PpsTimeSync) (t : Second) (first second : ℕ × ℕ)
    → IsSecond t
    → 1678 ≤ t.date.year
    → t.date.year ≤ 2261
    → (a : SyncEpoch) × (b : SyncEpoch) × ((one_second self t first).1 ≡ some a)
      × ((one_second (one_second self t first).0 (next_second t) second).1 ≡ some b)
      × ((a.capture_ns, a.query_ns) ≡ first)
      × ((b.capture_ns, b.query_ns) ≡ second)
      × (a.unix_ns ≡ (unix t +ℤ edge_offset_seconds self.association) *ℤ 1_000_000_000)
      × (b.unix_ns ≡ a.unix_ns +ℤ pos 1_000_000_000)
one_second_twice self t first second k lo hi =
    let one = one_second-eq self t first in
    let offset = edge_offset_seconds self.association in
    let fits = unix_fits t k lo hi in
    let next = unix-next_second t k in
    let small = offset_small self.association in
    let here =
      to_i64_lem ((unix t +ℤ offset) *ℤ 1_000_000_000)
        (omega (int_laws, fits, small, parts_apart (unix t +ℤ offset))) in
    let there = to_i64_lem ((unix (next_second t) +ℤ offset) *ℤ 1_000_000_000) (
      omega (
        int_laws,
        parts_of_eq _ _ next,
        fits,
        small,
        parts_apart (unix (next_second t) +ℤ offset),
      )) in
    (
      _,
      _,
      ap (λ (r : PpsTimeSync × Option SyncEpoch). r.1) one,
      ap (λ (r : PpsTimeSync × Option SyncEpoch). r.1)
          (ap (λ (r : PpsTimeSync × Option SyncEpoch). one_second r.0 (next_second t) second) one
            ∙ one_second-eq _ (next_second t) second),
      refl,
      refl,
      here,
      there ∙ omega (int_laws, parts_of_eq _ _ next, parts_of_eq _ _ here),
    )
