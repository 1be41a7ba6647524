-- ===== src/PicoGnss/Mt3333.antt =====
-- pico-gnss/src/mt3333.rs: the layer of the receiver. The port is the one of pico-ntp, and so are the
-- assembly of a command and the wait for a sentence, which the two firmwares write alike.
pub mod Follow
use pico_gnss.Base.{ℕ, if◌then◌else◌, Bool, Option, none, some, List, [], ◌∷◌, ◌==◌}
use pico_gnss.PicoNtp.Link.{Uart, UartRead, send_pmtk, raise_baud, try_baud}

abbrev pub gnss_baud : ℕ
gnss_baud = 9600

abbrev pub gnss_fast_baud : ℕ
gnss_fast_baud = 115_200

pub data OpMode : Type 0 where
  fixed_timing mobile : OpMode

abbrev pub stationary_command : List ℕ
stationary_command = 80 ∷ 77 ∷ 84 ∷ 75 ∷ 56 ∷ 56 ∷ 54 ∷ 44 ∷ 52 ∷ []

abbrev pub normal_command : List ℕ
normal_command = 80 ∷ 77 ∷ 84 ∷ 75 ∷ 56 ∷ 56 ∷ 54 ∷ 44 ∷ 48 ∷ []

abbrev pub pmtk886 : OpMode → List ℕ
pmtk886 fixed_timing = stationary_command
pmtk886 mobile = normal_command

abbrev pub code : OpMode → ℕ
code fixed_timing = 4
code mobile = 0

-- `PMTK_INIT`, with `OP_MODE`.
abbrev pub pmtk_init : List (List ℕ)
pmtk_init =
    pmtk886 fixed_timing
    ∷ (80 ∷ 77 ∷ 84 ∷ 75 ∷ 51 ∷ 49 ∷ 51 ∷ 44 ∷ 49 ∷ [])
    ∷ (80 ∷ 77 ∷ 84 ∷ 75 ∷ 51 ∷ 48 ∷ 49 ∷ 44 ∷ 50 ∷ [])
    ∷ (80 ∷ 77 ∷ 84 ∷ 75 ∷ 50 ∷ 56 ∷ 54 ∷ 44 ∷ 49 ∷ [])
    ∷ (80 ∷ 77 ∷ 84 ∷ 75 ∷ 51 ∷ 49 ∷ 52 ∷ 44 ∷ 49 ∷ 44 ∷ 49 ∷ 44 ∷ 49 ∷ 44 ∷ 49 ∷ 44 ∷ 49 ∷ 44 ∷ 49
        ∷ 44 ∷ 48 ∷ 44 ∷ 49 ∷ 44 ∷ 48 ∷ 44 ∷ 48 ∷ 44 ∷ 48 ∷ 44 ∷ 48 ∷ 44 ∷ 48 ∷ 44 ∷ 48 ∷ 44 ∷ 48
        ∷ 44 ∷ 48 ∷ 44 ∷ 48 ∷ 44 ∷ 49 ∷ 44 ∷ 48 ∷ [])
    ∷ (80 ∷ 77 ∷ 84 ∷ 75 ∷ 54 ∷ 48 ∷ 53 ∷ [])
    ∷ []

-- The commands of `config_task` in their order, with the 96 bytes of its line.
unfoldable pub send_all : Uart → List (List ℕ) → Uart
send_all uart [] = uart
send_all uart (command ∷ commands) = send_all (send_pmtk 96 uart command) commands

-- The port and `DYN_MODE` behind the commands of the start.
unfoldable pub configure : Uart → Uart × ℕ
configure uart = (send_all uart pmtk_init, code fixed_timing)

-- The reset of the port where nothing is heard at either rate.
unfoldable pub or_default : Uart × Option ℕ → Uart × ℕ
or_default (port, none) = (record port { baud = gnss_baud }, gnss_baud)
or_default (port, some rate) = (port, rate)

module _ (hears : Uart → List UartRead) where
  unfoldable pub probe_baud : Uart → Uart × Option ℕ
  probe_baud uart =
      let boot = try_baud hears uart gnss_baud in
      let fast = try_baud hears boot.0 gnss_fast_baud in
      if boot.1
      then (boot.0, some gnss_baud)
      else if fast.1
      then (fast.0, some gnss_fast_baud)
      else (fast.0, none)

  unfoldable pub establish_link : Uart → Uart × ℕ
  establish_link uart =
      let (port, found) = probe_baud uart in
      elim found [
        | none ↦ or_default (port, none)
        | some rate ↦
            if rate == gnss_fast_baud
            then (port, rate)
            else or_default (probe_baud (send_pmtk 96 port raise_baud))
      ]

  unfoldable pub follow_baud : Uart → Uart × Option ℕ
  follow_baud uart =
      let (port, found) = probe_baud uart in
      elim found [ none ↦ (record port { baud = gnss_baud }, none) | some rate ↦ (port, some rate) ]
