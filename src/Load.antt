-- ===== src/Load.antt =====
-- scripts/ntp-load/main.go, the load generator.
pub mod Packet
pub mod Cookies
pub mod Worker
pub mod Balance
pub mod Accounts
pub mod Conserved
pub mod Pace
pub mod Report
pub mod Ordered
pub mod Setup
pub mod Began
pub mod Channels
pub mod Halting
pub mod Stopping
