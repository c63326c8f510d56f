-- ===== src/Bridge.antt =====
-- The bridge of 3700Bridge/networks: it learns where stations are and takes part in the election of
-- a root.
pub mod Value
pub mod Reflect
pub mod Bpdu
pub mod Port
pub mod State
pub mod Spanning
pub mod Root
pub mod Forwarding
pub mod Accept
pub mod Launch
mod Tests
