-- ===== src/TinyNtp/Server/Dispersion.antt =====
-- The root dispersion: its closed form, and its growth during a holdover.
use pico_gnss.Base.{ℕ, ◌+◌, ◌*◌, ◌/◌, ◌≤◌, ◌≡◌, arith, min}
use pico_gnss.Base.Int.{ℤ}
use pico_gnss.TinyNtp.Short.Laws.{from_nanos_mono}
use pico_gnss.TinyNtp.Server.{
  ServerConfig, ClockState, Source, reference_clock, upstream, u64_max, u128_max,
  root_dispersion_ns, root_path, base_packet,
}

product-le : (a b k : ℕ) → a ≤ b → a * k ≤ b * k
product-le a b k h = grind arith

-- The floor and the growth since the last update, each exact until the sum saturates.
pub root_dispersion_ns-eq :
    (cfg : ServerConfig) (holdover_ns : ℕ)
    → root_dispersion_ns cfg holdover_ns
      ≡ min u64_max (
          cfg.base_dispersion_ns
          + min u128_max (holdover_ns * cfg.holdover_drift_ppb) / 1_000_000_000)
unfolding root_dispersion_ns
root_dispersion_ns-eq cfg holdover_ns = ground arith

-- A longer holdover never gives a smaller dispersion, and none is below the configured floor.
pub root_dispersion_ns_mono :
    (cfg : ServerConfig) (m n : ℕ) → m ≤ n → root_dispersion_ns cfg m ≤ root_dispersion_ns cfg n
root_dispersion_ns_mono cfg m n h = omega (
  arith,
  root_dispersion_ns-eq cfg m,
  root_dispersion_ns-eq cfg n,
  product-le m n cfg.holdover_drift_ppb h,
)

pub root_path_mono :
    (s : Source) (m n : ℕ) → m ≤ n → (root_path s m).2.bits ≤ (root_path s n).2.bits
unfolding root_path
root_path_mono (reference_clock id) m n h = from_nanos_mono m n h
root_path_mono (upstream a s d r t) m n h = from_nanos_mono _ _ (omega arith)

-- For one configuration, a longer holdover never puts a smaller root dispersion on the wire.
pub base_packet_dispersion_mono :
    (cfg : ServerConfig) (earlier later : ClockState) (t u : ℤ)
    → earlier.holdover_ns ≤ later.holdover_ns
    → (base_packet cfg earlier t).root_dispersion.bits
      ≤ (base_packet cfg later u).root_dispersion.bits
unfolding base_packet
base_packet_dispersion_mono cfg earlier later t u h =
    root_path_mono cfg.source _ _ (root_dispersion_ns_mono cfg _ _ h)
