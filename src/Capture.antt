-- ===== src/Capture.antt =====
-- exporter/internal/capture.
pub mod LocalAddresses
pub mod Filter
pub mod Frames
pub mod Worker
pub mod Backoff
pub mod Sockets
pub mod Owned
pub mod Sessions
pub mod Leaks
pub mod Ticks
pub mod Running
pub mod Loops
pub mod Agreement
pub mod Reading
pub mod Ending
