-- ===== src/Router.antt =====
-- The router of 3700Router/networks: a BGP router that keeps a forwarding table.
pub mod Address
pub mod Value
pub mod Reflect
pub mod Packet
pub mod State
pub mod Inform
pub mod Update
pub mod Withdraw
pub mod Forward
pub mod Dump
pub mod Run
mod Tests
