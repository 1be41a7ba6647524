-- ===== src/PicoGnss.antt =====
-- pico-gnss: the firmware of the disciplined output.
pub mod Mt3333
pub mod Recalibration
pub mod Servo
mod Examples
