-- ===== src/Pico10baseT.antt =====
-- pico-10base-t: the line coding of 10BASE-T and the UDP frames that it carries.
pub mod Phy
pub mod Crc
pub mod Checksum
pub mod Frame
pub mod Transmission
mod Examples
