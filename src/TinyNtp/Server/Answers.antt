-- ===== src/TinyNtp/Server/Answers.antt =====
-- What a served packet holds, in either mode of service.
use pico_gnss.Base.{ℕ, ◌≤◌, ◌≡◌, ◌≢◌, ◌↔◌, ◌⊎◌, refl, arith, inl, inr}
use pico_gnss.Base.Int.{ℤ, IsI64, IsI8}
use pico_gnss.Base.Bytes.{IsByte, IsQuad}
use pico_gnss.TinyNtp.Timestamp.{from_unix_ns}
use pico_gnss.TinyNtp.Timestamp.RoundTrip.{from_unix_ns-IsTimestamp}
use pico_gnss.TinyNtp.Short.{IsShort}
use pico_gnss.TinyNtp.Short.Laws.{from_nanos-IsShort}
use pico_gnss.TinyNtp.Packet.{LeapIndicator, Mode, NtpPacket, IsPacket}
use pico_gnss.TinyNtp.Server.{
  ServerConfig, ClockState, Source, reference_clock, upstream, LeapWarning, no_leap, serve, silent,
  Gate, ok, err, not_a_request, stratum, gate, root_path, root_dispersion_ns, leap_indicator,
  base_packet, broadcast, is_client, respond,
}
use pico_gnss.TinyNtp.Server.Policy.{IsDisciplined, IsSynchronised, IsRequest, gate-eq-ok}

abbrev pub broadcast_packet : ServerConfig → ClockState → ℤ → ℤ → NtpPacket
broadcast_packet cfg state last_update transmit = record (base_packet cfg state last_update) {
  mode = Mode.broadcast;
  transmit_timestamp = from_unix_ns transmit;
}

abbrev pub reply_packet : ServerConfig → ClockState → NtpPacket → ℤ → ℤ → ℤ → NtpPacket
reply_packet cfg state request last_update receive transmit =
    record (base_packet cfg state last_update) {
      mode = Mode.server;
      version = request.version;
      poll = request.poll;
      origin_timestamp = request.transmit_timestamp;
      receive_timestamp = from_unix_ns receive;
      transmit_timestamp = from_unix_ns transmit;
    }

-- `broadcast` serves a packet exactly when the clock is disciplined with a source to follow, and
-- the packet is then the base packet in broadcast mode with the scheduled instant as its transmit
-- timestamp.
pub broadcast-eq-serve :
    (cfg : ServerConfig) (state : ClockState) (transmit : ℤ) (p : NtpPacket)
    → (broadcast cfg state transmit ≡ serve p)
      ↔ ((t : ℤ) × IsDisciplined cfg state t × (p ≡ broadcast_packet cfg state t transmit))
unfolding broadcast
broadcast-eq-serve cfg state transmit p = (to (gate cfg state) refl, from)
  where
    to :
        (g : Gate)
        → gate cfg state ≡ g
        → broadcast cfg state transmit ≡ serve p
        → (t : ℤ) × IsDisciplined cfg state t × (p ≡ broadcast_packet cfg state t transmit)
    to (ok t) e h = (t, (gate-eq-ok cfg state t).0 e, ground arith)
    to (err r) e h = absurd (ground arith)

    from :
        (t : ℤ) × IsDisciplined cfg state t × (p ≡ broadcast_packet cfg state t transmit)
        → broadcast cfg state transmit ≡ serve p
    from (t, d, e) = ground (arith, (gate-eq-ok cfg state t).1 d)

-- `respond` serves a packet exactly when the request is a client's of version 1 to 4 and the
-- clock is disciplined with a source to follow, and the packet is then the base packet with the
-- request's version, poll interval and transmit timestamp echoed and the two instants filled in.
pub respond-eq-serve :
    (cfg : ServerConfig) (state : ClockState) (request : NtpPacket) (receive transmit : ℤ)
    (p : NtpPacket)
    → (respond cfg state request receive transmit ≡ serve p) ↔ (
        IsRequest request
        × ((t : ℤ) × IsDisciplined cfg state t
            × (p ≡ reply_packet cfg state request t receive transmit)))
unfolding respond is_client
respond-eq-serve cfg state request receive transmit p = (to (gate cfg state) refl, from)
  where
    to :
        (g : Gate)
        → gate cfg state ≡ g
        → respond cfg state request receive transmit ≡ serve p
        → IsRequest request
          × ((t : ℤ) × IsDisciplined cfg state t
              × (p ≡ reply_packet cfg state request t receive transmit))
    to (ok t) e h = (ground arith, (t, (gate-eq-ok cfg state t).0 e, ground arith))
    to (err r) e h = absurd (ground arith)

    from :
        IsRequest request
          × ((t : ℤ) × IsDisciplined cfg state t
              × (p ≡ reply_packet cfg state request t receive transmit))
        → respond cfg state request receive transmit ≡ serve p
    from (q, (t, d, e)) = ground (arith, (gate-eq-ok cfg state t).1 d)

-- A packet is served in either mode.
abbrev pub IsServed : ServerConfig → ClockState → NtpPacket → Type 0
IsServed cfg state p =
    ((transmit : ℤ) × (broadcast cfg state transmit ≡ serve p))
    ⊎ ((request : NtpPacket) × (receive : ℤ) × (transmit : ℤ) × (respond cfg state request receive
            transmit
          ≡ serve p))

-- What every client can rely on: a synchronised stratum, a leap indicator that says so, and a mode
-- that is not a question.
abbrev pub IsAnnouncement : NtpPacket → Type 0
IsAnnouncement p =
    (1 ≤ p.stratum)
    × (p.stratum ≤ 15)
    × (p.leap ≢ LeapIndicator.unsynchronized)
    × (p.mode ≢ Mode.client)

stratum_range : (s : Source) → IsSynchronised s → (1 ≤ stratum s) × (stratum s ≤ 15)
unfolding stratum
stratum_range (reference_clock id) h = omega arith
stratum_range (upstream a s d r t) h = omega arith

leap_indicator-ne : (w : LeapWarning) → leap_indicator w ≢ LeapIndicator.unsynchronized
unfolding leap_indicator
leap_indicator-ne no_leap = λ e. cc
leap_indicator-ne _ = λ e. cc

pub served-IsAnnouncement :
    (cfg : ServerConfig) (state : ClockState) (p : NtpPacket)
    → IsServed cfg state p
    → IsAnnouncement p
unfolding base_packet
served-IsAnnouncement cfg state p (inl (transmit, e)) =
    let (t, d, q) = (broadcast-eq-serve cfg state transmit p).0 e in
    rw q (ground (arith, stratum_range cfg.source d.3, leap_indicator-ne state.leap))
served-IsAnnouncement cfg state p (inr (request, receive, transmit, e)) =
    let (r, (t, d, q)) = (respond-eq-serve cfg state request receive transmit p).0 e in
    rw q (ground (arith, stratum_range cfg.source d.3, leap_indicator-ne state.leap))

-- A packet that a server served, as a broadcast or as a reply, is never answered: `respond` of
-- any server is silent on it because it is not a request.
pub respond_to_served :
    (cfg other : ServerConfig) (state other_state : ClockState) (p : NtpPacket)
    (receive transmit : ℤ)
    → IsServed cfg state p
    → respond other other_state p receive transmit ≡ silent not_a_request
unfolding respond is_client
respond_to_served cfg other state other_state p receive transmit h =
    let (_, _, _, mode) = served-IsAnnouncement cfg state p h in not_client p.mode mode
  where
    not_client :
        (m : Mode)
        → m ≢ Mode.client
        → respond other other_state (record p { mode = m }) receive transmit ≡ silent not_a_request
    not_client Mode.client ne = absurd (ne refl)
    not_client _ ne = refl

-- The ranges of a configuration's field types.
abbrev pub IsSource : Source → Type 0
IsSource (reference_clock id) = IsQuad id
IsSource (upstream a s d r t) = IsQuad a × IsByte s × IsShort d × IsShort r × IsI64 t

abbrev pub IsConfig : ServerConfig → Type 0
IsConfig cfg = IsI8 cfg.precision × IsI8 cfg.poll × IsSource cfg.source

root_path-fits :
    (s : Source) (own : ℕ)
    → IsSource s
    → IsByte (stratum s)
      × IsQuad (root_path s own).0
      × IsShort (root_path s own).1
      × IsShort (root_path s own).2
unfolding root_path stratum
root_path-fits (reference_clock id) own h = (omega arith, h, omega arith, from_nanos-IsShort own)
root_path-fits (upstream a s d r t) own h =
    (omega arith, h.0, from_nanos-IsShort _, from_nanos-IsShort _)

pub base_packet-IsPacket :
    (cfg : ServerConfig) (state : ClockState) (t : ℤ)
    → IsConfig cfg
    → IsPacket (base_packet cfg state t)
unfolding base_packet
base_packet-IsPacket cfg state t h =
    let (a, b, c, d) = root_path-fits cfg.source (root_dispersion_ns cfg state.holdover_ns) h.2 in
    record {
      version_fits = omega arith;
      stratum_fits = a;
      poll_fits = h.1;
      precision_fits = h.0;
      root_delay_fits = c;
      root_dispersion_fits = d;
      reference_id_fits = b;
      reference_fits = from_unix_ns-IsTimestamp t;
      origin_fits = omega arith;
      receive_fits = omega arith;
      transmit_fits = omega arith;
    }
