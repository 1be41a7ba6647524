-- ===== src/PicoNtp/Task/Branches.antt =====
-- The branches of a round of the task.
use pico_gnss.Base.{
  ℕ, ◌+◌, ◌%◌, ◌^◌, ◌≡◌, ◌⊎◌, inl, inr, refl, sym, subst, ◌∙◌, true, false, some, none, Bool-cases,
  Option-cases,
}
use pico_gnss.Base.Int.{ℤ, pos, ◌+ℤ◌, ◌-ℤ◌, ltb_ℤ}
use pico_gnss.Pico10baseT.Frame.Layout.{sent_frame}
use pico_gnss.Pico10baseT.Phy.Line.{line}
use pico_gnss.TinyNtp.Packet.{NtpPacket}
use pico_gnss.TinyNtp.Server.{ServeDecision, serve, silent, SilentReason, broadcast, silent_reason}
use pico_gnss.PicoNtp.Config.{clock_state, cfg, tx_lag_ns, symbol_words}
use pico_gnss.PicoNtp.Task.{
  NtpTask, Round, Action, pulse, transmit, next_target, sleep_us, serve_second, approach, ntp_round,
}
use pico_gnss.PicoNtp.Task.Buffers.{HasBuffers, ntp_spec}
use pico_gnss.PicoNtp.Task.Steps.{
  packet_state, built, hand_over_withheld, serve_second_refused, serve_second-built,
  serve_second_sent, round_untrusted, round_timeless, round_approach, approach_early, approach_due,
}

-- A packet that is made is either refused at the handover, or its line goes out.
pub data IsServed (port : ℕ) (s : NtpTask) (r : Round) (target : ℤ)
    : NtpTask × Action → Type 0 where
  refused :
      (reason : SilentReason)
      → broadcast cfg (packet_state r) (target +ℤ pos tx_lag_ns) ≡ silent reason
      → IsServed port s r target (s, pulse 0)
  withheld :
      (p : NtpPacket) (reason : SilentReason)
      → broadcast cfg (packet_state r) (target +ℤ pos tx_lag_ns) ≡ serve p
      → silent_reason cfg (clock_state r.handover).1 ≡ some reason
      → IsServed port s r target
          (built port s p, pulse (sleep_us target (clock_state r.before_wait).0))
  handed_over :
      (p : NtpPacket)
      → broadcast cfg (packet_state r) (target +ℤ pos tx_lag_ns) ≡ serve p
      → silent_reason cfg (clock_state r.handover).1 ≡ none
      → IsServed port s r target (
        record (built port s p) { sent = (s.sent + 1) % 2 ^ 32 },
        transmit target
            (sleep_us target (clock_state r.before_wait).0)
            (line (sent_frame (ntp_spec port ((s.ip_id + 1) % 2 ^ 16) p))),
      )

-- The branches of a round in the order of their tests. None of them goes on without a pulse.
pub data IsRound (port : ℕ) (s : NtpTask) (r : Round) : NtpTask × Action → Type 0 where
  untrusted : r.trusted ≡ false → IsRound port s r (s, pulse 0)
  timeless : r.trusted ≡ true → (clock_state r.top).0 ≡ none → IsRound port s r (s, pulse 0)
  early :
      (now : ℤ)
      → r.trusted ≡ true
      → (clock_state r.top).0 ≡ some now
      → ltb_ℤ (pos 16_000_000) (next_target now s.last_target_ns -ℤ now) ≡ true
      → IsRound port s r (s, pulse 0)
  due :
      (now : ℤ) (result : NtpTask × Action)
      → r.trusted ≡ true
      → (clock_state r.top).0 ≡ some now
      → ltb_ℤ (pos 16_000_000) (next_target now s.last_target_ns -ℤ now) ≡ false
      → IsServed port
          (record s { last_target_ns = next_target now s.last_target_ns })
          r
          (next_target now s.last_target_ns)
          result
      → IsRound port s r result

ServeDecision-cases :
    (d : ServeDecision)
    → ((p : NtpPacket) × (d ≡ serve p)) ⊎ ((reason : SilentReason) × (d ≡ silent reason))
ServeDecision-cases (serve p) = inl (p, refl)
ServeDecision-cases (silent reason) = inr (reason, refl)

module _ (port : ℕ) (s : NtpTask) (r : Round) (target : ℤ) (h : HasBuffers s) where
  packet-IsServed :
      (p : NtpPacket)
      → broadcast cfg (packet_state r) (target +ℤ pos tx_lag_ns) ≡ serve p
      → IsServed port s r target (serve_second port s r target)
  packet-IsServed p e = elim (Option-cases (silent_reason cfg (clock_state r.handover).1)) [
    | inl open_gate ↦
        subst (IsServed port s r target) (sym (serve_second_sent port s r target h p e open_gate))
          (handed_over p e open_gate)
    | inr (reason, shut) ↦
        subst (IsServed port s r target)
          (sym (
            serve_second-built port s r target h p e
            ∙ hand_over_withheld (built port s p) r target symbol_words reason shut))
          (withheld p reason e shut)
  ]

  pub serve_second-IsServed : IsServed port s r target (serve_second port s r target)
  serve_second-IsServed =
      elim (ServeDecision-cases (broadcast cfg (packet_state r) (target +ℤ pos tx_lag_ns))) [
        | inl (p, e) ↦ packet-IsServed p e
        | inr (reason, e) ↦
            subst (IsServed port s r target) (sym (serve_second_refused port s r target h reason e))
              (refused reason e)
      ]

module _ (port : ℕ) (s : NtpTask) (r : Round) where
  approach-IsRound :
      (now : ℤ)
      → HasBuffers s
      → r.trusted ≡ true
      → (clock_state r.top).0 ≡ some now
      → IsRound port s r (approach port s r now)
  approach-IsRound now h e f =
      elim (Bool-cases (ltb_ℤ (pos 16_000_000) (next_target now s.last_target_ns -ℤ now))) [
        | inl wait ↦
            subst (IsRound port s r) (sym (approach_early port s r now wait)) (early now e f wait)
        | inr soon ↦ subst (IsRound port s r) (sym (approach_due port s r now soon)) (
            due now _ e f soon (
              serve_second-IsServed port
                (record s { last_target_ns = next_target now s.last_target_ns }) r
                (next_target now s.last_target_ns)
                (record { frame_fits = h.frame_fits; symbols_fit = h.symbols_fit })))
      ]

pub ntp_round-IsRound :
    (port : ℕ) (s : NtpTask) (r : Round) → HasBuffers s → IsRound port s r (ntp_round port s r)
ntp_round-IsRound port s r h = elim (Bool-cases r.trusted) [
  | inr distrust ↦
      subst (IsRound port s r) (sym (round_untrusted port s r distrust)) (untrusted distrust)
  | inl yes_trusted ↦ elim (Option-cases (clock_state r.top).0) [
    | inl unknown ↦
        subst (IsRound port s r) (sym (round_timeless port s r yes_trusted unknown))
          (timeless yes_trusted unknown)
    | inr (now, known) ↦
        subst (IsRound port s r) (sym (round_approach port s r now yes_trusted known))
          (approach-IsRound port s r now h yes_trusted known)
  ]
]
