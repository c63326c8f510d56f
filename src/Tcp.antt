-- ===== src/Tcp.antt =====
-- The transport protocol of 3700TCP/networks: packets with a checksum, and their bytes.
pub mod Packet
pub mod Checksum
pub mod Receiver
pub mod Transfer
pub mod Sender
mod Tests
