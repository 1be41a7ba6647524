-- ===== src/PicoNtp/Link.antt =====
-- pico-ntp/src/main.rs: the receiver's link. What the port delivers before a deadline is a parameter.
pub mod Rates
pub mod Command
use pico_gnss.Base.{
  ℕ, ◌+◌, ◌/◌, ◌%◌, leb, if◌then◌else◌, Bool, true, false, Option, none, some, List, [], ◌∷◌, ◌++◌,
  length, ◌==◌, ◌&&◌,
}
use pico_gnss.RpPps.Assembler.{
  dollar, star, carriage_return, line_feed, NmeaLineAssembler, new, push, nmea_checksum,
}
use pico_gnss.RpPps.Assembler.Sums.{upper_hex}

abbrev pub gnss_boot_baud : ℕ
gnss_boot_baud = 9600

abbrev pub gnss_fast_baud : ℕ
gnss_fast_baud = 115_200

-- One read of the port: bytes, or a framing or break error.
pub data UartRead : Type 0 where
  received : List ℕ → UartRead
  failed : UartRead

-- The port: its rate, the lines that were sent, and how many times it was listened to.
pub record Uart : Type 0 where
  pub baud : ℕ
  pub written : List (List ℕ)
  pub listened : ℕ

-- `sentence.starts_with(b"$G")`.
unfoldable pub is_talker : List ℕ → Bool
is_talker (a ∷ b ∷ rest) = (a == dollar) && (b == 71)
is_talker _ = false

-- The bytes of one read: the assembler behind them, and whether a sentence came.
unfoldable pub listen_bytes : NmeaLineAssembler → List ℕ → NmeaLineAssembler × Bool
listen_bytes a [] = (a, false)
listen_bytes a (b ∷ bytes) =
    let (next, out) = push a b in
    let rest = listen_bytes next bytes in
    elim out [ none ↦ rest | some sentence ↦ if is_talker sentence then (next, true) else rest ]

-- The reads up to the deadline.
unfoldable pub listen : NmeaLineAssembler → List UartRead → Bool
listen a [] = false
listen a (failed ∷ reads) = listen a reads
listen a (received bytes ∷ reads) =
    let (next, found) = listen_bytes a bytes in
    let rest = listen next reads in if found then true else rest

abbrev pub await_nmea : List UartRead → Bool
await_nmea reads = listen new reads

-- `${payload}*{cs:02X}` and the end of a line.
unfoldable pub pmtk_line : List ℕ → List ℕ
pmtk_line payload =
    let cs = nmea_checksum payload in
    dollar
    ∷ (payload
        ++ star ∷ upper_hex (cs / 16) ∷ upper_hex (cs % 16) ∷ carriage_return ∷ line_feed ∷ [])

-- The line is written where it fits the `heapless::String`.
unfoldable pub send_pmtk : ℕ → Uart → List ℕ → Uart
send_pmtk capacity uart payload =
    if leb (length (pmtk_line payload)) capacity
    then record uart { written = uart.written ++ pmtk_line payload ∷ [] }
    else uart

-- `PMTK251,115200`.
abbrev pub raise_baud : List ℕ
raise_baud = 80 ∷ 77 ∷ 84 ∷ 75 ∷ 50 ∷ 53 ∷ 49 ∷ 44 ∷ 49 ∷ 49 ∷ 53 ∷ 50 ∷ 48 ∷ 48 ∷ []

-- The match behind the second probe.
unfoldable pub settle : Uart × Option ℕ → Uart × ℕ
settle (uart, some rate) = (uart, rate)
settle (uart, none) = (record uart { baud = gnss_boot_baud }, gnss_boot_baud)

module _ (hears : Uart → List UartRead) where
  -- One round of the loop of the probe: the rate, and whether NMEA frames at it.
  unfoldable pub try_baud : Uart → ℕ → Uart × Bool
  try_baud uart baud =
      let port : Uart = record uart { baud = baud } in
      (record port { listened = uart.listened + 1 }, await_nmea (hears port))

  unfoldable pub probe_gnss_baud : Uart → Uart × Option ℕ
  probe_gnss_baud uart =
      let boot = try_baud uart gnss_boot_baud in
      let fast = try_baud boot.0 gnss_fast_baud in
      if boot.1
      then (boot.0, some gnss_boot_baud)
      else if fast.1
      then (fast.0, some gnss_fast_baud)
      else (fast.0, none)

  unfoldable pub establish_gnss_link : Uart → Uart × ℕ
  establish_gnss_link uart =
      let (port, found) = probe_gnss_baud uart in
      elim found [
        | none ↦ (port, gnss_boot_baud)
        | some rate ↦
            if rate == gnss_fast_baud
            then (port, rate)
            else settle (probe_gnss_baud (send_pmtk 64 port raise_baud))
      ]

  -- What `main` stores in `SOURCE_TRUSTED`.
  unfoldable pub source_trusted : Uart → Bool
  source_trusted uart = (establish_gnss_link uart).1 == gnss_fast_baud
