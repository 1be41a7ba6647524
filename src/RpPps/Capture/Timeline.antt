-- ===== src/RpPps/Capture/Timeline.antt =====
-- The timeline of the edges of a counter that counts down, wraps included.
use pico_gnss.Base.{ℕ, ◌+◌, ◌*◌, ◌/◌, ◌^◌, ◌<◌, ◌≡◌, refl, ap, ◌∙◌, arith, List, [], ◌∷◌, some, All}
use pico_gnss.RpPps.Capture.{
  capture_cycles_per_tick, wrapping_sub, interval_ticks, interval_ns, PpsEdgeTimeline, new,
  interval_since, observe,
}

-- The counter after `ticks` more ticks.
abbrev pub counted_down : ℕ → ℕ → ℕ
counted_down raw ticks = wrapping_sub raw ticks

pub interval_ticks-counted_down :
    (raw ticks : ℕ)
    → raw < 2 ^ 32
    → ticks < 2 ^ 32
    → interval_ticks raw (counted_down raw ticks) ≡ ticks
unfolding interval_ticks
interval_ticks-counted_down raw ticks h k = ground arith

-- The state after the edges that follow an edge at `raw` by these numbers of ticks.
pub observe_all : PpsEdgeTimeline → ℕ → List ℕ → PpsEdgeTimeline
observe_all s raw [] = s
observe_all s raw (ticks ∷ more) =
    observe_all (observe s (counted_down raw ticks)).0 (counted_down raw ticks) more

-- The sum of the intervals, each rounded down to a nanosecond.
unfoldable pub total_ns : ℕ → List ℕ → ℕ
total_ns clk_hz [] = 0
total_ns clk_hz (ticks ∷ more) =
    ticks * capture_cycles_per_tick * 1_000_000_000 / clk_hz + total_ns clk_hz more

observe_edge :
    (s : PpsEdgeTimeline) (raw ticks : ℕ)
    → s.last ≡ some raw
    → raw < 2 ^ 32
    → ticks < 2 ^ 32
    → s.edge_ns + ticks * capture_cycles_per_tick * 1_000_000_000 / s.clk_hz < 2 ^ 64
    → (observe s (counted_down raw ticks)).0 ≡ record {
      clk_hz = s.clk_hz;
      last = some (counted_down raw ticks);
      edge_ns = s.edge_ns + ticks * capture_cycles_per_tick * 1_000_000_000 / s.clk_hz;
    }
unfolding observe interval_since interval_ns
observe_edge s raw ticks e h k fits =
    rw (e, interval_ticks-counted_down raw ticks h k) (ground arith)

observe_all-from :
    (gaps : List ℕ) (s : PpsEdgeTimeline) (raw : ℕ)
    → s.last ≡ some raw
    → raw < 2 ^ 32
    → All (λ t. t < 2 ^ 32) gaps
    → s.edge_ns + total_ns s.clk_hz gaps < 2 ^ 64
    → (observe_all s raw gaps).edge_ns ≡ s.edge_ns + total_ns s.clk_hz gaps
unfolding observe_all total_ns
observe_all-from [] s raw e h k fits = omega arith
observe_all-from (ticks ∷ more) s raw e h (k, ks) fits =
    let one = ticks * capture_cycles_per_tick * 1_000_000_000 / s.clk_hz in
    let next = observe_edge s raw ticks e h k (omega arith) in
    ap (λ (q : PpsEdgeTimeline). (observe_all q (counted_down raw ticks) more).edge_ns) next
    ∙ observe_all-from more
        (record {
          clk_hz = s.clk_hz;
          last = some (counted_down raw ticks);
          edge_ns = s.edge_ns + one;
        })
        (counted_down raw ticks) refl (omega arith) ks (omega arith)
    ∙ omega arith

-- From a first edge, the timeline of a counter that counts down and wraps, with fewer than 2^32
-- ticks between edges and a total below 2^64, is the sum of the intervals, each rounded down to a
-- nanosecond.
pub observe_all-edge_ns :
    (clk_hz raw : ℕ) (gaps : List ℕ)
    → raw < 2 ^ 32
    → All (λ t. t < 2 ^ 32) gaps
    → total_ns clk_hz gaps < 2 ^ 64
    → (observe_all (observe (new clk_hz) raw).0 raw gaps).edge_ns ≡ total_ns clk_hz gaps
unfolding observe interval_since
observe_all-edge_ns clk_hz raw gaps h k fits =
    observe_all-from gaps (observe (new clk_hz) raw).0 raw refl h k (omega arith) ∙ omega arith
