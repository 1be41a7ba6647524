-- ===== src/PicoNtp/Task/Transmissions.antt =====
-- What a round of the task sends, and when it does.
use pico_gnss.Base.{
  ℕ, ◌+◌, ◌%◌, ◌^◌, ◌<◌, ◌≡◌, ◌≢◌, refl, sym, ap, subst, ◌∙◌, arith, true, false, List, [], ◌++◌,
  some, none, slice,
}
use mathlib.Core.List.{append-nil}
use pico_gnss.Base.Int.{
  ℤ, pos, ◌+ℤ◌, ◌-ℤ◌, ◌≤ℤ◌, ltb_ℤ, +ℤ_parts, -ℤ_parts, *ℤ_parts, euclid_parts, div_euclid,
}
use pico_gnss.Pico10baseT.Frame.{IsSpec}
use pico_gnss.Pico10baseT.Frame.Layout.{sent_frame, sent_frame-IsByte}
use pico_gnss.Pico10baseT.Frame.Receiver.{IsReceived, sent_frame-IsReceived}
use pico_gnss.Pico10baseT.Phy.{preamble_sfd}
use pico_gnss.Pico10baseT.Phy.Line.{line, read_line, read_line-line}
use pico_gnss.TinyNtp.Packet.{NtpPacket, IsPacket, encode, decode}
use pico_gnss.TinyNtp.Packet.RoundTrip.{length-encode}
use pico_gnss.TinyNtp.Packet.Range.{encode-IsByte}
use pico_gnss.TinyNtp.Server.{serve, broadcast, silent_reason}
use pico_gnss.TinyNtp.Server.Answers.{IsConfig}
use pico_gnss.TinyNtp.Server.Wire.{decode-broadcast, broadcast-IsPacket}
use pico_gnss.PicoNtp.Config.{clock_state, cfg, tx_lag_ns}
use pico_gnss.PicoNtp.Task.{NtpTask, Round, Action, pulse, retry, transmit, next_target, ntp_round}
use pico_gnss.PicoNtp.Task.Buffers.{HasBuffers, ntp_spec}
use pico_gnss.PicoNtp.Task.Steps.{packet_state}
use pico_gnss.PicoNtp.Task.Branches.{
  IsServed, refused, withheld, handed_over, IsRound, untrusted, timeless, early, due,
  ntp_round-IsRound,
}

-- What stands behind a transmission: a trusted source, a boundary within a link-pulse interval, the
-- policy asked at the build and at the handover, and a line that a receiver reads as the packet.
pub record IsTransmission (port : ℕ) (s : NtpTask) (r : Round) (target : ℤ) (words : List ℕ)
    : Type 0 where
  pub trusted : r.trusted ≡ true
  pub now : ℤ
  pub now_read : (clock_state r.top).0 ≡ some now
  pub target_is : target ≡ next_target now s.last_target_ns
  pub ahead : now +ℤ pos 1 ≤ℤ target
  pub soon : target ≤ℤ now +ℤ pos 16_000_000
  pub packet : NtpPacket
  pub served : broadcast cfg (packet_state r) (target +ℤ pos tx_lag_ns) ≡ serve packet
  pub open_gate : silent_reason cfg (clock_state r.handover).1 ≡ none
  pub frame : List ℕ
  pub on_line : read_line words ≡ some (preamble_sfd ++ frame)
  pub received : IsReceived (ntp_spec port ((s.ip_id + 1) % 2 ^ 16) packet) frame
  pub decoded : decode (slice frame 42 48) ≡ some packet

abbrev IsSent : ℕ → NtpTask → Round → Action → Type 0
IsSent port s r (pulse slept) = Unit
IsSent port s r retry = ⊥
IsSent port s r (transmit target slept words) = IsTransmission port s r target words

pub next_target_ahead :
    (now last : ℤ)
    → (now +ℤ pos 1 ≤ℤ next_target now last) × (last +ℤ pos 1 ≤ℤ next_target now last)
unfolding next_target
next_target_ahead now last =
    let days = div_euclid now 1_000_000_000 in
    ground (
      arith,
      euclid_parts now 1_000_000_000 (omega arith),
      +ℤ_parts days (pos 1),
      *ℤ_parts (days +ℤ pos 1) 1_000_000_000,
      +ℤ_parts last (pos 1_000_000_000),
      +ℤ_parts now (pos 1),
      +ℤ_parts last (pos 1),
    )

cfg-IsConfig : IsConfig cfg
cfg-IsConfig = omega arith

module _ (port ip_id : ℕ) (port_fits : port < 2 ^ 16) (id_fits : ip_id < 2 ^ 16)
    (p : NtpPacket) where
  ntp_spec-IsSpec : IsPacket p → IsSpec (ntp_spec port ip_id p)
  ntp_spec-IsSpec h = record {
    src_mac_fits = omega arith;
    dst_mac_fits = omega arith;
    src_ip_fits = omega arith;
    dst_ip_fits = omega arith;
    src_port_fits = omega arith;
    dst_port_fits = port_fits;
    ip_id_fits = id_fits;
    ttl_fits = omega arith;
    payload_fits = encode-IsByte p h;
  }

  frame-IsReceived :
      IsPacket p → IsReceived (ntp_spec port ip_id p) (sent_frame (ntp_spec port ip_id p))
  frame-IsReceived h =
      sent_frame-IsReceived (ntp_spec port ip_id p) (ntp_spec-IsSpec h)
        (omega (arith, length-encode p))

  frame_on_line :
      IsPacket p
      → read_line (line (sent_frame (ntp_spec port ip_id p)))
        ≡ some (preamble_sfd ++ sent_frame (ntp_spec port ip_id p))
  frame_on_line h =
      let frame = sent_frame (ntp_spec port ip_id p) in
      ap read_line (sym (append-nil (line frame)))
      ∙ read_line-line frame [] (sent_frame-IsByte (ntp_spec port ip_id p) (ntp_spec-IsSpec h))

  frame_decoded :
      (received : IsReceived (ntp_spec port ip_id p) (sent_frame (ntp_spec port ip_id p)))
      → decode (encode p ++ []) ≡ some p
      → decode (slice (sent_frame (ntp_spec port ip_id p)) 42 48) ≡ some p
  frame_decoded received e =
      ap (λ (n : ℕ). decode (slice (sent_frame (ntp_spec port ip_id p)) 42 n))
        (sym (length-encode p))
      ∙ ap decode (received.payload_is ∙ sym (append-nil (encode p)))
      ∙ e

module _ (port : ℕ) (s : NtpTask) (r : Round) (fits : port < 2 ^ 16) where
  served-IsSent :
      (now : ℤ) (x : NtpTask × Action)
      → r.trusted ≡ true
      → (clock_state r.top).0 ≡ some now
      → ltb_ℤ (pos 16_000_000) (next_target now s.last_target_ns -ℤ now) ≡ false
      → IsServed port
          (record s { last_target_ns = next_target now s.last_target_ns })
          r
          (next_target now s.last_target_ns)
          x
      → IsSent port s r x.1
  served-IsSent now x e f near (refused reason g) = tt
  served-IsSent now x e f near (withheld p reason g shut) = tt
  served-IsSent now x e f near (handed_over p g open_gate) =
      let target = next_target now s.last_target_ns in
      let id_fits : (s.ip_id + 1) % 2 ^ 16 < 2 ^ 16 = omega arith in
      let fine =
        broadcast-IsPacket cfg (packet_state r) p cfg-IsConfig (target +ℤ pos tx_lag_ns) g in
      let received = frame-IsReceived port ((s.ip_id + 1) % 2 ^ 16) fits id_fits p fine in
      record {
        trusted = e;
        now = now;
        now_read = f;
        target_is = refl;
        ahead = (next_target_ahead now s.last_target_ns).0;
        soon = ground (arith, near, -ℤ_parts target now, +ℤ_parts now (pos 16_000_000));
        packet = p;
        served = g;
        open_gate = open_gate;
        frame = sent_frame (ntp_spec port ((s.ip_id + 1) % 2 ^ 16) p);
        on_line = frame_on_line port ((s.ip_id + 1) % 2 ^ 16) fits id_fits p fine;
        received = received;
        decoded =
            frame_decoded port ((s.ip_id + 1) % 2 ^ 16) fits id_fits p received
              (decode-broadcast cfg (packet_state r) p cfg-IsConfig (target +ℤ pos tx_lag_ns) [] g);
      }

  round-IsSent : (x : NtpTask × Action) → IsRound port s r x → IsSent port s r x.1
  round-IsSent x (untrusted e) = tt
  round-IsSent x (timeless e f) = tt
  round-IsSent x (early now e f g) = tt
  round-IsSent x (due now result e f g h) = served-IsSent now x e f g h

  -- For ports below 2^16 and buffers of their lengths, what a round of `ntp_task` transmits
  -- stands on a trusted source and a target that is ahead of the clock by at most a link-pulse
  -- interval, with the policy asked at the build and again at the handover; a receiver of the
  -- line reads the preamble and a frame that passes its checks, and `decode` of its payload is
  -- the packet that `broadcast` made for the target.
  pub ntp_round-IsTransmission :
      (target : ℤ) (slept : ℕ) (words : List ℕ)
      → HasBuffers s
      → (ntp_round port s r).1 ≡ transmit target slept words
      → IsTransmission port s r target words
  ntp_round-IsTransmission target slept words h e =
      subst (IsSent port s r) e (round-IsSent (ntp_round port s r) (ntp_round-IsRound port s r h))

  pub ntp_round_goes_on : HasBuffers s → (ntp_round port s r).1 ≢ retry
  ntp_round_goes_on h e =
      subst (IsSent port s r) e (round-IsSent (ntp_round port s r) (ntp_round-IsRound port s r h))
