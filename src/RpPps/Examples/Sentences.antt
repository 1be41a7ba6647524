-- ===== src/RpPps/Examples/Sentences.antt =====
-- The theorems on sentences and on the seconds that they name.
use pico_gnss.Base.{ℕ, ◌≡◌, arith, true, some, List, [], ◌∷◌, ◌++◌, replicate}
use pico_gnss.Base.Int.{pos, ◌+ℤ◌, ◌*ℤ◌}
use pico_gnss.RpPps.Assembler.{NmeaLineAssembler}
use pico_gnss.RpPps.Assembler.Framing.{feed}
use pico_gnss.RpPps.Assembler.Stream.{stream, fitting, feed-stream}
use pico_gnss.RpPps.Calendar.{days_in_month, is_leap}
use pico_gnss.RpPps.Calendar.Days.{Date, IsDate, next_day, days, days-next_day}
use pico_gnss.RpPps.TimeSync.{SyncEpoch, same_second, edge_offset_seconds, with_association}
use pico_gnss.RpPps.TimeSync.Pairing.{
  Event, edge, date, time, epochs, edges, pending_edges, IsSelected, epochs-IsSelected,
}
use pico_gnss.RpPps.TimeSync.Seconds.{
  Second, IsSecond, unix, next_second, one_second, one_second_twice,
}

-- In the middle of a sentence that is never ended.
abbrev cut_off : NmeaLineAssembler
cut_off = record { buf = 36 ∷ 71 ∷ []; in_sentence = true }

-- Two short sentences around one that is too long.
abbrev bodies : List (List ℕ)
bodies = (71 ∷ 80 ∷ []) ∷ replicate 90 65 ∷ (71 ∷ []) ∷ []

feed-stream_example : (feed cut_off (stream bodies)).1 ≡ fitting bodies
feed-stream_example = feed-stream cut_off bodies (ground arith)

-- The leap day of 2000.
abbrev leap_day : Date
leap_day = record { year = 2000; month = 2; day = 29 }

leap_day-IsDate : IsDate leap_day
unfolding days_in_month is_leap
leap_day-IsDate = record {
  year_fits = omega arith;
  month_fits = omega arith;
  day_fits = omega arith;
}

days-next_day_example : days (next_day leap_day) ≡ days leap_day +ℤ pos 1
days-next_day_example = days-next_day leap_day leap_day-IsDate

abbrev events : List Event
events = edge 5 6 ∷ time 1 2 3 ∷ date 2026 6 7 ∷ edge 15 16 ∷ time 1 2 4 ∷ time 1 2 5 ∷ []

epochs-IsSelected_example :
    IsSelected
      (pending_edges (with_association same_second) ++ edges events)
      (epochs (with_association same_second) events)
epochs-IsSelected_example = epochs-IsSelected (with_association same_second) events

abbrev last_second : Second
last_second = record { date = leap_day; h = 23; mi = 59; s = 59 }

last_second-IsSecond : IsSecond last_second
last_second-IsSecond = record {
  date_fits = leap_day-IsDate;
  h_fits = omega arith;
  mi_fits = omega arith;
  s_fits = omega arith;
}

one_second_twice_example :
    (a : SyncEpoch) × (b : SyncEpoch) × ((one_second
        (with_association same_second)
        last_second
        (7, 8)).1
      ≡ some a)
    × ((one_second
          (one_second (with_association same_second) last_second (7, 8)).0
          (next_second last_second)
          (17, 18)).1
        ≡ some b)
    × ◌≡◌ {A = ℕ × ℕ} (a.capture_ns, a.query_ns) (7, 8)
    × ◌≡◌ {A = ℕ × ℕ} (b.capture_ns, b.query_ns) (17, 18)
    × (a.unix_ns ≡ (unix last_second +ℤ edge_offset_seconds same_second) *ℤ 1_000_000_000)
    × (b.unix_ns ≡ a.unix_ns +ℤ pos 1_000_000_000)
one_second_twice_example =
    one_second_twice (with_association same_second) last_second (7, 8) (17, 18) last_second-IsSecond
      (omega arith) (omega arith)
