-- ===== src/Lib.antt =====
-- pico-gnss: a GNSS-disciplined NTP server on an RP2040, and the libraries that it is made of.
--
-- The modelled parts, by crate:
--   TinyNtp: tiny-ntp, the protocol. Timestamp and Short are tiny-ntp/src/timestamp.rs (the 32.32
--     and 16.16 formats), Packet is tiny-ntp/src/packet.rs (the 48-byte header), Server is
--     tiny-ntp/src/server.rs (when the server may answer, and what it claims), Client is
--     tiny-ntp/src/client.rs (what a reply or a broadcast measures). The code is pure: the clock's
--     state and the instants are arguments, here as there. A firmware calls `broadcast` or
--     `respond` and sends `encode` of the packet; a client calls `decode` and `measure`.
--   Pico10baseT: pico-10base-t, the transmit-only Ethernet. Crc, Checksum and Frame are
--     pico-10base-t/src/frame.rs (`crc32`, `ones_complement_checksum`, `build_udp_frame`), Phy is
--     pico-10base-t/src/phy.rs (`manchester_word`, `encode_frame`). Transmission puts them
--     together: datagram, frame, symbols on the line, and a receiver of the symbols.
--   RpPps: rp-pps, the pulse. Assembler is rp-pps/src/assembler.rs (`push`, the checksum);
--     Calendar, Fields and TimeSync are rp-pps/src/timesync.rs (civil days, the parsers of RMC and
--     ZDA, `PpsTimeSync`); Capture, Phase, Polarity and Output are the arithmetic of
--     rp-pps/src/lib.rs. A firmware feeds the bytes of the receiver to `push`, a captured edge to
--     `observe` and `on_pps_edge`, the time of a sentence to `on_time`, and the period of the next
--     second from `next_period` to the output. Gpsdo is rp-pps/src/gpsdo.rs, the bundle of these with
--     the clock of gnssdo.
--   Gnssdo: gnssdo, the discipline. Tracker is gnssdo/src/pps.rs (`record_edge` is `record`),
--     QuantisationError is gnssdo/src/qerr.rs (`correct_next` is the method of the corrector).
--     Control is gnssdo/src/control.rs (what a loop takes and gives, the trait as a record), Pll is
--     gnssdo/src/pll.rs, IntegralRework, AlphaBeta and Controllers are gnssdo/src/controllers.rs (two
--     more loops, and the choice between them). Clock is the state of `DisciplinedClock` of
--     gnssdo/src/gpsdo.rs and what a pulse and a temperature do to it, Clock/Readout is what is read
--     from it, Discipline is `Gnssdo`, the policy that connects tracker and clock.
--     A firmware reports each edge to `on_pps` and each second to `on_utc`, asks the clock for the
--     time and the frequency, and steps a loop with the phase of its own output.
--   PicoNtp: pico-ntp/src/main.rs, the firmware of the server. Config has its constants and
--     `clock_state`, Task one round of `ntp_task`, from the reading of the clock to the words on the
--     line, Link the search for the receiver and its rate.
--   PicoGnss: pico-gnss, the firmware of the output. Mt3333 is pico-gnss/src/mt3333.rs, Recalibration
--     is `recal_k` of pico-gnss/src/main.rs, Servo an edge of its `gen_capture_task`, from the captures
--     to the frequency and the phase that the output gets, without the experiments.
-- Base holds what they share: lists indexed by native numbers, ℤ with `i64` clamping and both kinds
-- of division, bytes and their orders, bit operations.
--
-- Numbers. An unsigned integer is a native number with its range as a hypothesis where a result
-- needs it; a sum that can wrap or saturate says so in the definition. An `i64` or `i128` is a ℤ.
-- The sums and products of `i64` in the loops and the clock, and the next second of `ntp_task`, are
-- in ℤ, as in a build that checks for overflow; Pll/Range compares the two terms of the
-- phase-locked loop with their wrapped forms. The product of `on_time`, those of the period words
-- with the sums that they go into, casts and shifts to the left keep their wrap-around, and a
-- theorem names the range where it needs one. The bound of a `clamp` to both sides is a native
-- number, since `clamp` panics for a negative one.
-- A buffer is a list of bytes (or words); a write into a caller's buffer returns the new buffer.
-- Loops are recursion over the list or by the number of rounds left. The rounds of `ntp_task` and
-- of `recal_k`, the edges of `gen_capture_task` and the reads of a port up to a deadline are lists
-- of what the hardware gave. Two loops have fuel:
-- `near_loop` (3 rounds, and the test that ends it) and `fold_carries` (at most 2 rounds for a
-- `u32`); the theorems about them have no case for fuel that runs out.
--
-- Not modelled: the PIO programs, the register and DMA backends, and the set-up in `main`, since they
-- only talk to the hardware; the other firmware tasks and the experiments; the host tools,
-- scripts and the web viewer; and the RMC parser behind the feature external-nmea.
pub mod Base
pub mod TinyNtp
pub mod Pico10baseT
pub mod RpPps
pub mod Gnssdo
pub mod PicoGnss
pub mod PicoNtp
