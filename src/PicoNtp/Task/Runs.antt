-- ===== src/PicoNtp/Task/Runs.antt =====
-- The rounds of the task one behind another: no second is served twice, and every due one is served.
use pico_gnss.Base.{
  ℕ, ◌+◌, ◌%◌, ◌^◌, ◌≡◌, refl, sym, ap, subst, ◌∙◌, arith, true, false, List, [], ◌∷◌, some, none,
}
use pico_gnss.Base.Int.{ℤ, pos, ◌+ℤ◌, ◌-ℤ◌, ◌≤ℤ◌, ltb_ℤ, +ℤ_parts, -ℤ_parts}
use pico_gnss.Pico10baseT.Frame.Layout.{sent_frame}
use pico_gnss.Pico10baseT.Phy.Line.{line}
use pico_gnss.TinyNtp.Packet.{NtpPacket}
use pico_gnss.TinyNtp.Server.{serve, broadcast, silent_reason}
use pico_gnss.PicoNtp.Config.{clock_state, cfg, tx_lag_ns}
use pico_gnss.PicoNtp.Task.{
  NtpTask, Round, Action, pulse, retry, transmit, next_target, sleep_us, ntp_round,
}
use pico_gnss.PicoNtp.Task.Buffers.{HasBuffers, ntp_spec, length-frame, length-symbols}
use pico_gnss.PicoNtp.Task.Steps.{packet_state, built, round_due, serve_second_sent}
use pico_gnss.PicoNtp.Task.Branches.{
  IsServed, refused, withheld, handed_over, IsRound, untrusted, timeless, early, due,
  ntp_round-IsRound,
}
use pico_gnss.PicoNtp.Task.Transmissions.{next_target_ahead}

unfoldable pub run_task : ℕ → NtpTask → List Round → List Action
run_task port s [] = []
run_task port s (r ∷ rounds) =
    let (next, action) = ntp_round port s r in action ∷ run_task port next rounds

-- The seconds that a run transmits for.
abbrev pub targets : List Action → List ℤ
targets [] = []
targets (pulse slept ∷ actions) = targets actions
targets (retry ∷ actions) = targets actions
targets (transmit target slept words ∷ actions) = target ∷ targets actions

abbrev pub IsRising : ℤ → List ℤ → Type 0
IsRising last [] = Unit
IsRising last (t ∷ ts) = (last +ℤ pos 1 ≤ℤ t) × IsRising t ts

built-HasBuffers : (port : ℕ) (s : NtpTask) (p : NtpPacket) → HasBuffers (built port s p)
built-HasBuffers port s p = record {
  frame_fits = length-frame port ((s.ip_id + 1) % 2 ^ 16) p;
  symbols_fit = length-symbols port ((s.ip_id + 1) % 2 ^ 16) p;
}

abbrev IsNext : NtpTask → NtpTask → Action → Type 0
IsNext s next (pulse slept) = Unit
IsNext s next retry = Unit
IsNext s next (transmit target slept words) =
    (target ≡ next.last_target_ns) × (s.last_target_ns +ℤ pos 1 ≤ℤ target)

-- Behind a round: the buffers, the last target, and the target of what it sent.
abbrev IsKept : NtpTask → NtpTask × Action → Type 0
IsKept s x = HasBuffers x.0 × (s.last_target_ns ≤ℤ x.0.last_target_ns) × IsNext s x.0 x.1

module _ (port : ℕ) (s : NtpTask) (r : Round) (h : HasBuffers s) where
  served-IsKept :
      (now : ℤ) (x : NtpTask × Action)
      → IsServed port
          (record s { last_target_ns = next_target now s.last_target_ns })
          r
          (next_target now s.last_target_ns)
          x
      → IsKept s x
  served-IsKept now x (refused reason g) = (
    record { frame_fits = h.frame_fits; symbols_fit = h.symbols_fit },
    omega (arith, (next_target_ahead now s.last_target_ns).1, +ℤ_parts s.last_target_ns (pos 1)),
    tt,
  )
  served-IsKept now x (withheld p reason g shut) =
      let kept = built-HasBuffers port s p in
      (
        record { frame_fits = kept.frame_fits; symbols_fit = kept.symbols_fit },
        omega
            (arith, (next_target_ahead now s.last_target_ns).1, +ℤ_parts s.last_target_ns (pos 1)),
        tt,
      )
  served-IsKept now x (handed_over p g open_gate) =
      let kept = built-HasBuffers port s p in
      (
        record { frame_fits = kept.frame_fits; symbols_fit = kept.symbols_fit },
        omega
            (arith, (next_target_ahead now s.last_target_ns).1, +ℤ_parts s.last_target_ns (pos 1)),
        (refl, (next_target_ahead now s.last_target_ns).1),
      )

  round-IsKept : (x : NtpTask × Action) → IsRound port s r x → IsKept s x
  round-IsKept x (untrusted e) = (h, omega arith, tt)
  round-IsKept x (timeless e f) = (h, omega arith, tt)
  round-IsKept x (early now e f g) = (h, omega arith, tt)
  round-IsKept x (due now result e f g served) = served-IsKept now x served

  pub ntp_round-IsKept : IsKept s (ntp_round port s r)
  ntp_round-IsKept = round-IsKept (ntp_round port s r) (ntp_round-IsRound port s r h)

IsRising-earlier : (a b : ℤ) (ts : List ℤ) → a ≤ℤ b → IsRising b ts → IsRising a ts
IsRising-earlier a b [] le h = tt
IsRising-earlier a b (t ∷ ts) le h =
    (omega (arith, le, h.0, +ℤ_parts a (pos 1), +ℤ_parts b (pos 1)), h.1)

IsRising-action :
    (s next : NtpTask) (action : Action) (actions : List Action)
    → s.last_target_ns ≤ℤ next.last_target_ns
    → IsNext s next action
    → IsRising next.last_target_ns (targets actions)
    → IsRising s.last_target_ns (targets (action ∷ actions))
IsRising-action s next (pulse slept) actions le e h = IsRising-earlier _ _ (targets actions) le h
IsRising-action s next retry actions le e h = IsRising-earlier _ _ (targets actions) le h
IsRising-action s next (transmit target slept words) actions le e h =
    (e.1, subst (λ (t : ℤ). IsRising t (targets actions)) (sym e.0) h)

-- With buffers of their lengths, the seconds for which a run of `ntp_task` transmits rise
-- strictly, from the last target on: whatever the clock does, no second is served twice.
pub run_task-IsRising :
    (port : ℕ) (s : NtpTask) (rounds : List Round)
    → HasBuffers s
    → IsRising s.last_target_ns (targets (run_task port s rounds))
unfolding run_task
run_task-IsRising port s [] h = tt
run_task-IsRising port s (r ∷ rounds) h =
    let (kept, le, e) = ntp_round-IsKept port s r h in
    IsRising-action s (ntp_round port s r).0 (ntp_round port s r).1
      (run_task port (ntp_round port s r).0 rounds) le e
      (run_task-IsRising port (ntp_round port s r).0 rounds kept)

-- With buffers of their lengths, a trusted source and a clock that knows the time, where the next
-- second is due within a link-pulse interval, `broadcast` serves it and the policy still allows
-- it at the handover, the round transmits the line of that packet for that second.
pub ntp_round_due :
    (port : ℕ) (s : NtpTask) (r : Round) (now : ℤ) (p : NtpPacket)
    → HasBuffers s
    → r.trusted ≡ true
    → (clock_state r.top).0 ≡ some now
    → next_target now s.last_target_ns ≤ℤ now +ℤ pos 16_000_000
    → broadcast cfg (packet_state r) (next_target now s.last_target_ns +ℤ pos tx_lag_ns) ≡ serve p
    → silent_reason cfg (clock_state r.handover).1 ≡ none
    → (ntp_round port s r).1
      ≡ transmit
          (next_target now s.last_target_ns)
          (sleep_us (next_target now s.last_target_ns) (clock_state r.before_wait).0)
          (line (sent_frame (ntp_spec port ((s.ip_id + 1) % 2 ^ 16) p)))
ntp_round_due port s r now p h e f near g open_gate =
    let target = next_target now s.last_target_ns in
    let soon : ltb_ℤ (pos 16_000_000) (target -ℤ now) ≡ false =
      ground (arith, near, -ℤ_parts target now, +ℤ_parts now (pos 16_000_000)) in
    ap (λ x. x.1)
      (round_due port s r now e f soon
        ∙ serve_second_sent port (record s { last_target_ns = target }) r target
            (record { frame_fits = h.frame_fits; symbols_fit = h.symbols_fit }) p g open_gate)
