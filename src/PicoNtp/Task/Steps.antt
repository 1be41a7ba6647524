-- ===== src/PicoNtp/Task/Steps.antt =====
-- The equations of the branches of a round, one for each test.
use pico_gnss.Base.{ℕ, ◌+◌, ◌%◌, ◌^◌, ◌≡◌, refl, ap, ◌∙◌, true, false, some, none, take}
use pico_gnss.Base.Int.{ℤ, pos, ◌+ℤ◌, ◌-ℤ◌, ltb_ℤ}
use pico_gnss.Pico10baseT.Frame.Layout.{sent_frame}
use pico_gnss.Pico10baseT.Phy.Line.{line}
use pico_gnss.TinyNtp.Packet.{NtpPacket, encode}
use pico_gnss.TinyNtp.Server.{serve, silent, SilentReason, ClockState, broadcast, silent_reason}
use pico_gnss.PicoNtp.Config.{clock_state, cfg, tx_lag_ns, symbol_words}
use pico_gnss.PicoNtp.Task.{
  NtpTask, Round, pulse, transmit, next_target, sleep_us, hand_over, build_frame, fresher,
  serve_second, approach, ntp_round,
}
use pico_gnss.PicoNtp.Task.Buffers.{HasBuffers, ntp_spec, build_frame-eq, line_words}

-- The clock's state that the packet of a round is made from.
abbrev pub packet_state : Round → ClockState
packet_state r = fresher (clock_state r.top).1 (clock_state r.build).1

-- The task behind the build of a packet.
abbrev pub built : ℕ → NtpTask → NtpPacket → NtpTask
built port s p =
    let ip_id = (s.ip_id + 1) % 2 ^ 16 in
    let frame = sent_frame (ntp_spec port ip_id p) in
    record s { frame = frame; symbols = line frame; ip_id = ip_id }

module _ (s : NtpTask) (r : Round) (target : ℤ) (words : ℕ) where
  pub hand_over_withheld :
      (reason : SilentReason)
      → silent_reason cfg (clock_state r.handover).1 ≡ some reason
      → hand_over s r target words ≡ (s, pulse (sleep_us target (clock_state r.before_wait).0))
  unfolding hand_over
  hand_over_withheld reason e = rw (hand_over, e) refl

  pub hand_over_sent :
      silent_reason cfg (clock_state r.handover).1 ≡ none
      → hand_over s r target words ≡ (
        record s { sent = (s.sent + 1) % 2 ^ 32 },
        transmit target (sleep_us target (clock_state r.before_wait).0) (take words s.symbols),
      )
  unfolding hand_over
  hand_over_sent e = rw (hand_over, e) refl

module _ (port : ℕ) (s : NtpTask) (r : Round) (target : ℤ) (h : HasBuffers s) where
  pub serve_second_refused :
      (reason : SilentReason)
      → broadcast cfg (packet_state r) (target +ℤ pos tx_lag_ns) ≡ silent reason
      → serve_second port s r target ≡ (s, pulse 0)
  unfolding serve_second
  serve_second_refused reason e = rw (serve_second, e) refl

  pub serve_second-built :
      (p : NtpPacket)
      → broadcast cfg (packet_state r) (target +ℤ pos tx_lag_ns) ≡ serve p
      → serve_second port s r target ≡ hand_over (built port s p) r target symbol_words
  serve_second-built p e =
      first
      ∙ build_frame-eq port (record s { ip_id = (s.ip_id + 1) % 2 ^ 16 }) r target p
          (record { frame_fits = h.frame_fits; symbols_fit = h.symbols_fit })
    where
      first :
          serve_second port s r target
          ≡ build_frame port (record s { ip_id = (s.ip_id + 1) % 2 ^ 16 }) r target (encode p)
      first = unfold serve_second in rw (serve_second, e) refl

  pub serve_second_sent :
      (p : NtpPacket)
      → broadcast cfg (packet_state r) (target +ℤ pos tx_lag_ns) ≡ serve p
      → silent_reason cfg (clock_state r.handover).1 ≡ none
      → serve_second port s r target ≡ (
        record (built port s p) { sent = (s.sent + 1) % 2 ^ 32 },
        transmit target
            (sleep_us target (clock_state r.before_wait).0)
            (line (sent_frame (ntp_spec port ((s.ip_id + 1) % 2 ^ 16) p))),
      )
  serve_second_sent p e open_gate =
      serve_second-built p e
      ∙ hand_over_sent (built port s p) r target symbol_words open_gate
      ∙ ap
          (λ l. (
            record (built port s p) { sent = (s.sent + 1) % 2 ^ 32 },
            transmit target (sleep_us target (clock_state r.before_wait).0) l,
          ))
          (line_words port ((s.ip_id + 1) % 2 ^ 16) p)

module _ (port : ℕ) (s : NtpTask) (r : Round) where
  pub round_untrusted : r.trusted ≡ false → ntp_round port s r ≡ (s, pulse 0)
  unfolding ntp_round
  round_untrusted e = rw (ntp_round, e) refl

  pub round_timeless :
      r.trusted ≡ true → (clock_state r.top).0 ≡ none → ntp_round port s r ≡ (s, pulse 0)
  unfolding ntp_round
  round_timeless e f = rw (ntp_round, e, f) refl

  pub round_approach :
      (now : ℤ)
      → r.trusted ≡ true
      → (clock_state r.top).0 ≡ some now
      → ntp_round port s r ≡ approach port s r now
  unfolding ntp_round
  round_approach now e f = simp (ntp_round, e, f)

  pub approach_early :
      (now : ℤ)
      → ltb_ℤ (pos 16_000_000) (next_target now s.last_target_ns -ℤ now) ≡ true
      → approach port s r now ≡ (s, pulse 0)
  unfolding approach
  approach_early now e = rw (approach, e) refl

  pub approach_due :
      (now : ℤ)
      → ltb_ℤ (pos 16_000_000) (next_target now s.last_target_ns -ℤ now) ≡ false
      → approach port s r now
        ≡ serve_second port
            (record s { last_target_ns = next_target now s.last_target_ns })
            r
            (next_target now s.last_target_ns)
  unfolding approach
  approach_due now e = rw (approach, e) refl

  pub round_due :
      (now : ℤ)
      → r.trusted ≡ true
      → (clock_state r.top).0 ≡ some now
      → ltb_ℤ (pos 16_000_000) (next_target now s.last_target_ns -ℤ now) ≡ false
      → ntp_round port s r
        ≡ serve_second port
            (record s { last_target_ns = next_target now s.last_target_ns })
            r
            (next_target now s.last_target_ns)
  round_due now e f soon = round_approach now e f ∙ approach_due now soon
