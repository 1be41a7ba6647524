-- ===== src/PicoNtp.antt =====
-- pico-ntp: the firmware of the NTP server, between the clock, the protocol and the line.
pub mod Config
pub mod Task
pub mod Link
mod Examples
