-- ===== src/Tests/Threads.antt =====
-- Two goroutines that handle a request and flush at the same time.
use ntp_server.Base.{ℕ, ◌*◌, ◌≤◌, ◌≡◌, refl, ok, List, [], ◌∷◌, arith, Returns, replicate}
use ntp_server.Base.{list_eqb}
use ntp_server.Aggregate.Accessors.{pending_len}
use ntp_server.Aggregate.{new, pending_max, new_worker_counters, capture_packets}
use ntp_server.Aggregate.Handle.{count_request, with_worker}
use ntp_server.Aggregate.Flush.{merge_worker}
use ntp_server.Aggregate.Flush.Ledger.{Series}
use ntp_server.Aggregate.Flush.Total.{Call, frame, flushes, requests_in, run_all}
use ntp_server.Aggregate.Threads.{
  System, Reaches, started, begins, goes_on, advance, begin_call, start_call, new_system, step,
  touching, merging,
}
use ntp_server.Aggregate.Threads.Alone.{Alone}
use ntp_server.Aggregate.Threads.Uninterrupted.{call-Alone}
use ntp_server.Aggregate.Threads.Settled.{IsSettled}
use ntp_server.Aggregate.Threads.Conserved.{Swept, all_requests, Reaches-conserves}
use ntp_server.Tests.Collectors.{identity, noon, asked, two_workers, two_workers_lem}
use ntp_server.Tests.Flushes.{whole, late}
use ntp_server.Tests.Sorting.{insertion_sort, insertion_sort-Sorts}

abbrev both : List Call
both = flushes late ∷ frame noon asked ∷ []

-- The flush takes the counts of worker 0 after the request of the other goroutine is counted.
abbrev now : System ℕ
now = record {
  collector = record two_workers { frames_since_sweep = 1 };
  threads =
      touching noon asked
      ∷ merging late 1 (
          merge_worker new_worker_counters
            (count_request noon.geo asked.version asked.family new_worker_counters))
      ∷ [];
  events = capture_packets asked.direction ∷ [];
}

crossing : Reaches identity whole insertion_sort 25 2 2 both (ok now)
unfolding new_system new begin_call start_call advance step replicate list_eqb with_worker
crossing =
    goes_on 1 _
      (goes_on 0 _
        (goes_on 0 _
          (goes_on 0 _
            (begins 1 (flushes late) (begins 0 (frame noon asked) started (omega arith) refl) tt
              refl)
            refl)
          refl)
        refl)
      refl

Reaches-conserves_example : Returns (ok now) λ sys.
    IsSettled 2 sys.collector
    × (pending_len sys.collector ≤ 16 * pending_max)
    × ((s : Series) → all_requests s sys ≡ requests_in both)
    × Swept sys.collector.frames_since_sweep sys.threads
Reaches-conserves_example =
    Reaches-conserves identity whole insertion_sort insertion_sort-Sorts crossing

call-Alone_example :
    Returns
      (run_all ℕ identity whole insertion_sort insertion_sort-Sorts (flushes late ∷ []) two_workers)
      (λ u. Alone identity whole insertion_sort (start_call (flushes late)) two_workers u.0 u.1)
call-Alone_example =
    call-Alone ℕ identity whole insertion_sort insertion_sort-Sorts (flushes late) {n = 2}
      (omega arith) tt two_workers_lem
