-- ===== src/RpPps/Capture.antt =====
-- rp-pps/src/lib.rs: intervals between captured edges. The counter of the capture program counts
-- down and wraps at `2 ^ 32`.
pub mod Timeline
use pico_gnss.Base.{ℕ, ◌+◌, ◌-◌, ◌*◌, ◌/◌, ◌%◌, ◌^◌, List, [], ◌∷◌, Option, none, some}

abbrev pub capture_cycles_per_tick : ℕ
capture_cycles_per_tick = 2

-- `a.wrapping_sub(b)` on `u32`.
abbrev pub wrapping_sub : ℕ → ℕ → ℕ
wrapping_sub a b = (a + 2 ^ 32 - b) % 2 ^ 32

pub interval_ticks : ℕ → ℕ → ℕ
interval_ticks prev curr = wrapping_sub prev curr

-- `u128` holds the products, and the cast keeps 64 bits.
pub interval_ns : ℕ → ℕ → ℕ → ℕ
interval_ns prev curr clk_hz =
    interval_ticks prev curr * capture_cycles_per_tick * 1_000_000_000 / clk_hz % 2 ^ 64

pub ns_per_tick : ℕ → ℕ
ns_per_tick clk_hz = capture_cycles_per_tick * 1_000_000_000 / clk_hz

pub record TimedEdge : Type 0 where
  pub raw : ℕ
  pub interval : ℕ
  pub edge : ℕ

-- `last` and `edge_ns`; `clk_hz` never changes.
pub record PpsEdgeTimeline : Type 0 where
  pub clk_hz : ℕ
  pub last : Option ℕ
  pub edge_ns : ℕ

abbrev pub new : ℕ → PpsEdgeTimeline
new clk_hz = record { clk_hz = clk_hz; last = none; edge_ns = 0 }

-- `match self.last`.
interval_since : Option ℕ → ℕ → ℕ → ℕ
interval_since none raw clk_hz = 0
interval_since (some prev) raw clk_hz = interval_ns prev raw clk_hz

pub observe : PpsEdgeTimeline → ℕ → PpsEdgeTimeline × TimedEdge
observe self raw =
    let interval = interval_since self.last raw self.clk_hz in
    let edge_ns = (self.edge_ns + interval) % 2 ^ 64 in
    (
      record { clk_hz = self.clk_hz; last = some raw; edge_ns = edge_ns },
      record { raw = raw; interval = interval; edge = edge_ns },
    )

pub capture_ticks_per_second : ℕ → ℕ
capture_ticks_per_second clk_hz = clk_hz / capture_cycles_per_tick

-- The value of a blocking read, then what non-blocking reads give until there is none.
pub latest_capture : ℕ → List ℕ → ℕ × ℕ
latest_capture first [] = (first, 0)
latest_capture first (v ∷ more) =
    let (latest, dropped) = latest_capture v more in (latest, dropped + 1)
