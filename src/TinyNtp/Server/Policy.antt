-- ===== src/TinyNtp/Server/Policy.antt =====
-- When the server answers, and what every answer has.
use pico_gnss.Base.{◌<◌, ◌≤◌, ◌≡◌, ◌≢◌, ◌↔◌, refl, arith, true, false, none, some}
use pico_gnss.Base.Int.{ℤ}
use pico_gnss.TinyNtp.Packet.{Mode, NtpPacket}
use pico_gnss.TinyNtp.Server.{
  ServerConfig, ClockState, Source, reference_clock, upstream, SilentReason, serve, silent, ok, err,
  no_epoch, frequency_unlocked, holdover_exceeded, too_deep, not_a_request, unsupported_version,
  upstream_unsynchronised, stratum, is_unsynchronised_upstream, gate_epoch, gate, silent_reason,
  broadcast, is_client, respond,
}

-- A source that a server may follow: hardware, or an upstream at stratum 1 to 14.
abbrev pub IsSynchronised : Source → Type 0
IsSynchronised (reference_clock id) = Unit
IsSynchronised (upstream a s d r t) = (1 ≤ s) × (s ≤ 14)

-- A clock that may serve: it knows the time and its frequency, in a holdover that is not too long.
abbrev pub IsDisciplined : ServerConfig → ClockState → ℤ → Type 0
IsDisciplined cfg state t =
    (state.last_update_unix_ns ≡ some t)
    × (state.frequency_locked ≡ true)
    × (state.holdover_ns ≤ cfg.max_holdover_ns)
    × IsSynchronised cfg.source

source_tests :
    (s : Source) → ((is_unsynchronised_upstream s ≡ false) × (stratum s < 16)) ↔ IsSynchronised s
unfolding is_unsynchronised_upstream stratum
source_tests (reference_clock id) = (λ h. tt, λ h. (refl, omega arith))
source_tests (upstream a s d r t) = ground arith

-- The gate opens, and with the instant `t`, exactly when the clock was last updated at `t`, is
-- frequency-locked, is in a holdover within the limit, and follows hardware or an upstream of
-- stratum 1 to 14.
pub gate-eq-ok :
    (cfg : ServerConfig) (state : ClockState) (t : ℤ)
    → (gate cfg state ≡ ok t) ↔ IsDisciplined cfg state t
unfolding gate gate_epoch
gate-eq-ok cfg state t = (
  λ h. ground (arith, (source_tests cfg.source).0),
  λ h. ground (arith, (source_tests cfg.source).1),
)

-- The reason for silence names the first test that fails, in the order of the tests.
abbrev pub IsReason : ServerConfig → ClockState → SilentReason → Type 0
IsReason cfg state no_epoch = state.last_update_unix_ns ≡ none
IsReason cfg state frequency_unlocked =
    (state.last_update_unix_ns ≢ none) × (state.frequency_locked ≡ false)
IsReason cfg state holdover_exceeded =
    (state.last_update_unix_ns ≢ none)
    × (state.frequency_locked ≡ true)
    × (cfg.max_holdover_ns < state.holdover_ns)
IsReason cfg state upstream_unsynchronised =
    (state.last_update_unix_ns ≢ none)
    × (state.frequency_locked ≡ true)
    × (state.holdover_ns ≤ cfg.max_holdover_ns)
    × (is_unsynchronised_upstream cfg.source ≡ true)
IsReason cfg state too_deep =
    (state.last_update_unix_ns ≢ none)
    × (state.frequency_locked ≡ true)
    × (state.holdover_ns ≤ cfg.max_holdover_ns)
    × (is_unsynchronised_upstream cfg.source ≡ false)
    × (16 ≤ stratum cfg.source)
IsReason cfg state _ = ⊥

-- The gate refuses with a reason exactly when that reason names the first of its five tests that
-- fails, in their order; the two reasons about requests are never given.
pub gate-eq-err :
    (cfg : ServerConfig) (state : ClockState) (r : SilentReason)
    → (gate cfg state ≡ err r) ↔ IsReason cfg state r
unfolding gate gate_epoch
gate-eq-err cfg state no_epoch = ground arith
gate-eq-err cfg state frequency_unlocked = ground arith
gate-eq-err cfg state holdover_exceeded = ground arith
gate-eq-err cfg state upstream_unsynchronised = ground arith
gate-eq-err cfg state too_deep = ground arith
gate-eq-err cfg state not_a_request = ground arith
gate-eq-err cfg state unsupported_version = ground arith

-- `silent_reason` gives a reason exactly when `broadcast` is silent with the same reason, at any
-- instant.
pub broadcast-silent_reason :
    (cfg : ServerConfig) (state : ClockState) (transmit_unix_ns : ℤ) (r : SilentReason)
    → (silent_reason cfg state ≡ some r) ↔ (broadcast cfg state transmit_unix_ns ≡ silent r)
unfolding silent_reason broadcast
broadcast-silent_reason cfg state t r = (λ h. ground arith, λ h. ground arith)

-- A request is one that `respond` answers if the clock lets it.
abbrev pub IsRequest : NtpPacket → Type 0
IsRequest p = (p.mode ≡ Mode.client) × (1 ≤ p.version) × (p.version ≤ 4)

-- For a client's request of version 1 to 4, `silent_reason` gives a reason exactly when `respond`
-- is silent with the same reason, at any two instants.
pub respond-silent_reason :
    (cfg : ServerConfig) (state : ClockState) (request : NtpPacket) (receive transmit : ℤ)
    (r : SilentReason)
    → IsRequest request
    → (silent_reason cfg state ≡ some r) ↔ (respond cfg state request receive transmit ≡ silent r)
unfolding silent_reason respond is_client
respond-silent_reason cfg state request receive transmit r h =
    (λ e. ground arith, λ e. ground arith)

-- What is not a request gets no answer, whatever the clock: no server answers another.
pub respond_only_requests :
    (cfg : ServerConfig) (state : ClockState) (request p : NtpPacket) (receive transmit : ℤ)
    → respond cfg state request receive transmit ≡ serve p
    → IsRequest request
unfolding respond is_client
respond_only_requests cfg state request p receive transmit e = ground arith
