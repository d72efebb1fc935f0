-- ===== src/Tests/Ticks.antt =====
-- Ticks of the flush loop.
use ntp_server.Base.{ℕ, ◌+◌, ◌≤◌, ◌≡◌, refl, none, some, List, [], ◌∷◌, arith, Returns}
use ntp_server.Aggregate.Flush.Drops.{rises, last_of, kernel_posted}
use ntp_server.Capture.Ticks.{
  Tick, drops_at, readings, flush_forever, Published, flush_forever-Published,
}
use ntp_server.Tests.Collectors.{identity, noon, asked, two_workers, two_workers_lem}
use ntp_server.Tests.Flushes.{whole}
use ntp_server.Tests.Sorting.{insertion_sort, insertion_sort-Sorts}

-- two sockets with so many drops each
abbrev tick : ℕ → Tick
tick drops = record {
  frames = (noon, asked) ∷ [];
  manager = some (record { num_workers = 2; num_blocks = 1; sockets = 0 ∷ 1 ∷ [] });
  stats = λ s. some drops;
  clock = 9;
  wall = 43_200_000_000_000;
  wall_later = 43_200_000_000_000;
}

-- The manager is gone at the second tick, and its drops fall at the last one.
abbrev ticks : List Tick
ticks = tick 4 ∷ record (tick 0) { manager = none } ∷ tick 9 ∷ tick 5 ∷ []

readings_run : (readings ticks ≡ 8 ∷ 18 ∷ 10 ∷ []) × (rises 0 (readings ticks) ≡ 18)
unfolding readings ntp_server.Aggregate.Flush.Drops.and_then drops_at rises
    ntp_server.Capture.Sockets.kernel_drops_from
readings_run = (refl, refl)

flush_forever-Published_example :
    Returns
      (flush_forever ℕ identity 2 whole insertion_sort insertion_sort-Sorts ticks
        (some 0)
        two_workers)
      λ u.
        Published ℕ identity 2 whole insertion_sort insertion_sort-Sorts 0 (readings ticks) u
        × (last_of 0 (readings ticks) ≤ 0 + kernel_posted u.2)
flush_forever-Published_example =
    flush_forever-Published ℕ identity 2 whole insertion_sort insertion_sort-Sorts ticks 0
      two_workers_lem
      ((omega arith, tt), ((omega arith, tt), ((omega arith, tt), ((omega arith, tt), tt))))
