-- ===== src/Tests.antt =====
-- Concrete runs of the model.
mod Frames
mod Sketches
mod Collectors
mod Sorting
mod Flushes
mod Captures
mod Pools
mod Loads
mod Resolvers
mod Sessions
mod Machines
mod Stops
mod Ticks
mod Runs
mod Threads
mod Loopers
mod Metrics
mod Started
