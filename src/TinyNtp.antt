-- ===== src/TinyNtp.antt =====
-- tiny-ntp: NTP timestamps, the 48-byte header, the server's policy and the client's arithmetic.
pub mod Timestamp
pub mod Short
pub mod Packet
pub mod Server
pub mod Client
mod Examples
