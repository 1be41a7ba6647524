-- ===== src/RpPps.antt =====
-- rp-pps: sentences of the receiver, the time of a pulse, the arithmetic of its capture and its
-- output, and the bundle that disciplines a clock by them.
pub mod Assembler
pub mod Capture
pub mod Output
pub mod Phase
pub mod Calendar
pub mod TimeSync
pub mod Gpsdo
pub mod Polarity
mod Examples
pub mod Fields
