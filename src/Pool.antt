-- ===== src/Pool.antt =====
-- exporter/internal/ntppool/ntppool.go: the poller of the scores of ntppool.org. HTTP, the JSON decoder
-- and floats are parameters; a nil pointer is `none`.
pub mod Scores
pub mod Newest
pub mod Latest
pub mod Poll
pub mod Outcomes
