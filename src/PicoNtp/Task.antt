-- ===== src/PicoNtp/Task.antt =====
-- pico-ntp/src/main.rs: `ntp_task`, one round of its loop as a function of what the round reads.
pub mod Buffers
pub mod Steps
pub mod Branches
pub mod Transmissions
pub mod Runs
use pico_gnss.Base.{
  ℕ, ◌+◌, ◌*◌, ◌/◌, ◌%◌, ◌^◌, if◌then◌else◌, Bool, Option, none, some, List, [], ◌∷◌, take,
  replicate,
}
use pico_gnss.Base.Int.{ℤ, pos, pos_part, ◌+ℤ◌, ◌-ℤ◌, ◌*ℤ◌, div_euclid, ltb_ℤ, leb_ℤ, i64_min}
use pico_gnss.Pico10baseT.Frame.{build_udp_frame}
use pico_gnss.Pico10baseT.Phy.{encode_frame}
use pico_gnss.TinyNtp.Packet.{encode}
use pico_gnss.TinyNtp.Server.{ClockState, serve, silent, broadcast, silent_reason}
use pico_gnss.PicoNtp.Config.{
  Reading, clock_state, cfg, tx_lag_ns, nlp_us, udp_spec, frame_size, symbol_words,
}

-- The locals of the task that live over the rounds, the two buffers among them.
pub record NtpTask : Type 0 where
  pub frame : List ℕ
  pub symbols : List ℕ
  pub ip_id : ℕ
  pub sent : ℕ
  pub last_target_ns : ℤ

abbrev pub first_state : NtpTask
first_state = record {
  frame = replicate frame_size 0;
  symbols = replicate symbol_words 0;
  ip_id = 0;
  sent = 0;
  last_target_ns = i64_min;
}

-- What a round reads, in its order: `SOURCE_TRUSTED`, and the clock at the top, at the build, before
-- the wait and at the handover. A round that ends early does not look at the later ones.
pub record Round : Type 0 where
  pub trusted : Bool
  pub top : Reading
  pub build : Reading
  pub before_wait : Reading
  pub handover : Reading

-- What a round does: sleep some microseconds and then send a link pulse; go on at once; or sleep and
-- then transmit the words, for the second that the log calls `target_unix_ns`.
pub data Action : Type 0 where
  pulse : ℕ → Action
  retry : Action
  transmit : ℤ → ℕ → List ℕ → Action

-- The next whole second that is not served yet.
unfoldable pub next_target : ℤ → ℤ → ℤ
next_target now last =
    let target = (div_euclid now 1_000_000_000 +ℤ pos 1) *ℤ 1_000_000_000 in
    if leb_ℤ target last then last +ℤ pos 1_000_000_000 else target

-- The sleep to the boundary, by the clock as it is read behind the build.
unfoldable pub sleep_us : ℤ → Option ℤ → ℕ
sleep_us target none = 0
sleep_us target (some now) = pos_part (target -ℤ now) / 1000

-- Behind the build: the gate is asked again, and the words are sent.
unfoldable pub hand_over : NtpTask → Round → ℤ → ℕ → NtpTask × Action
hand_over s r target words =
    let slept = sleep_us target (clock_state r.before_wait).0 in
    elim (silent_reason cfg (clock_state r.handover).1) [
      | some reason ↦ (s, pulse slept)
      | none ↦
          (record s { sent = (s.sent + 1) % 2 ^ 32 }, transmit target slept (take words s.symbols))
    ]

unfoldable pub build_symbols : NtpTask → Round → ℤ → ℕ → NtpTask × Action
build_symbols s r target len = elim (encode_frame (take len s.frame) s.symbols) [
  | none ↦ (s, retry)
  | some (words, symbols) ↦ hand_over (record s { symbols = symbols }) r target words
]

unfoldable pub build_frame : ℕ → NtpTask → Round → ℤ → List ℕ → NtpTask × Action
build_frame port s r target payload =
    elim (build_udp_frame (udp_spec port s.ip_id payload) s.frame) [
      | none ↦ (s, retry)
      | some (len, frame) ↦ build_symbols (record s { frame = frame }) r target len
    ]

-- The state for the packet: the newer one, unless the clock has lost its time since.
unfoldable pub fresher : ClockState → ClockState → ClockState
fresher state state_now = elim state_now.last_update_unix_ns [ none ↦ state | some t ↦ state_now ]

unfoldable pub serve_second : ℕ → NtpTask → Round → ℤ → NtpTask × Action
serve_second port s r target =
    let state = fresher (clock_state r.top).1 (clock_state r.build).1 in
    elim (broadcast cfg state (target +ℤ pos tx_lag_ns)) [
      | silent reason ↦ (s, pulse 0)
      | serve packet ↦
          build_frame port (record s { ip_id = (s.ip_id + 1) % 2 ^ 16 }) r target (encode packet)
    ]

unfoldable pub approach : ℕ → NtpTask → Round → ℤ → NtpTask × Action
approach port s r now =
    let target = next_target now s.last_target_ns in
    if ltb_ℤ (pos (nlp_us * 1000)) (target -ℤ now)
    then (s, pulse 0)
    else serve_second port (record s { last_target_ns = target }) r target

unfoldable pub ntp_round : ℕ → NtpTask → Round → NtpTask × Action
ntp_round port s r =
    if r.trusted
    then elim (clock_state r.top).0 [ none ↦ (s, pulse 0) | some now ↦ approach port s r now ]
    else (s, pulse 0)
