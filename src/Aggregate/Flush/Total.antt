-- ===== src/Aggregate/Flush/Total.antt =====
-- Calls of `HandleFrame` and `Flush` of exporter/internal/aggregate/aggregate.go in any order:
-- every request is published exactly once.
use ntp_server.Base.{
  ℕ, ◌+◌, ◌<◌, ◌≡◌, refl, Bool, List, [], ◌∷◌, ◌++◌, arith, All, if◌then◌else◌, Run, ok, ◌>>=◌,
  Returns, ◌==◌, string_eq, max,
}
use ntp_server.Frame.{request}
use ntp_server.Hll.{Floats}
use ntp_server.Aggregate.{
  Collector, Event, new, new_worker_counters, clients_active, clients_unique_daily,
}
use ntp_server.Aggregate.Asn.{Kv}
use ntp_server.Base.Order.{Sorts}
use ntp_server.Aggregate.Handle.{Frame, Reading, handle_frame}
use ntp_server.Aggregate.Keeps.{IsValidOf, new-IsValidOf}
use ntp_server.Aggregate.Flush.{FlushReading, flush, flush_maps, snapshot}
use ntp_server.Aggregate.Flush.Ledger.{
  Series, waiting, posts, posted, posted-append, posted-read_drops, posted-publish, waits-snapshot,
  waits-new, waiting-reset, waiting-replicate,
}
use ntp_server.Aggregate.Flush.Valid.{flush_lem}
use ntp_server.Aggregate.Flush.Steps.{handle_frame-Counted}

module _ (F : Type 0) where
  posted-gauges :
      (s : Series) (n : ℕ) (x : F) → posted s (clients_active n ∷ clients_unique_daily x ∷ []) ≡ 0
  unfolding posted posts
  posted-gauges s n x = ground arith

-- A call on the collector, with what it reads of its surroundings.
pub data Call : Type 0 where
  frame : Reading → Frame → Call
  flushes : FlushReading → Call

-- frames of workers that exist; a flush may come at any time
abbrev pub IsCall : ℕ → Call → Type 0
IsCall n (frame r f) = f.worker < n
IsCall n (flushes r) = Unit

-- how many of the calls handle a request
unfoldable pub requests_in : List Call → ℕ
requests_in [] = 0
requests_in (frame r f ∷ calls) = (if f.direction == request then 1 else 0) + requests_in calls
requests_in (flushes r ∷ calls) = requests_in calls

module _ (F : Type 0) (sha1 : List ℕ → List ℕ) (fl : Floats F)
    (sort : (Kv → Kv → Bool) → List Kv → List Kv) (sorts : Sorts sort) where
  -- the calls in their order, with all calls on the metrics
  unfoldable pub run_all : List Call → Collector → Run (Collector × List (Event F))
  run_all [] c = ok (c, [])
  run_all (frame r f ∷ calls) c = do
    (c', events) ← handle_frame sha1 r f c
    (c'', later) ← run_all calls c'
    ok (c'', events ++ later)
  run_all (flushes r ∷ calls) c = do
    (c', last, events) ← flush sort fl r c
    (c'', later) ← run_all calls c'
    ok (c'', events ++ later)

  -- `Flush` publishes, in each series, exactly the requests that wait, and leaves none.
  pub flush-posted :
      (r : FlushReading) {n : ℕ} {c : Collector}
      → IsValidOf n c
      → Returns (flush sort fl r c) λ u.
        IsValidOf n u.0
        × ((s : Series) → (posted s u.2 ≡ waiting s c.workers) × (waiting s u.0.workers ≡ 0))
  unfolding flush_maps
  flush-posted r {n} {c} v =
      let (u, run, (w, e, (h, merged, (events, same)))) = flush_lem sort sorts fl r v in
      let snap = snapshot new_worker_counters c.workers in
      (
        u,
        run,
        (
          w,
          λ s. (
            rw
                (
                  events,
                  posted-append,
                  posted-append,
                  posted-read_drops F s,
                  posted-publish F sort s c.asn_top_n _ snap,
                  waits-snapshot,
                  waits-new,
                  posted-gauges F s,
                )
                (omega arith),
            rw e (waiting-reset s c.workers),
          ),
        ),
      )

  run_all_lem :
      (calls : List Call) {n : ℕ} {c : Collector}
      → IsValidOf n c
      → All (IsCall n) calls
      → Returns (run_all calls c) λ u.
        IsValidOf n u.0
        × ((s : Series)
            → posted s u.1 + waiting s u.0.workers ≡ waiting s c.workers + requests_in calls)
  unfolding run_all requests_in posted
  run_all_lem [] v all = ((_, []), refl, (v, λ s. omega arith))
  run_all_lem (frame r f ∷ calls) v all =
      let (u, run, (w, counts)) = handle_frame-Counted F sha1 r f v all.0 in
      let (z, later, (done, counts')) = run_all_lem calls w all.1 in
      (
        (z.0, u.1 ++ z.1),
        rw (run, later),
        (done, λ s. rw posted-append (omega (arith, (counts s).0, (counts s).1, counts' s))),
      )
  run_all_lem (flushes r ∷ calls) v all =
      let (u, run, (w, counts)) = flush-posted r v in
      let (z, later, (done, counts')) = run_all_lem calls w all.1 in
      (
        (z.0, u.2 ++ z.1),
        rw (run, later),
        (done, λ s. rw posted-append (omega (arith, (counts s).0, (counts s).1, counts' s))),
      )

  -- From a new collector, whatever the frames, the answers of the resolver and the clocks, and the
  -- times of the flushes, for frames of workers that exist: no call panics, the collector stays
  -- valid, and in each of the four series, by country, by ASN (folded or not), by version and by
  -- family, what has been published and what still waits add up to the requests that were handled.
  -- So no request is lost or published twice, and the four series always agree.
  pub run_all-conserves :
      (asn_top_n num_workers : ℕ) (calls : List Call)
      → All (IsCall (max num_workers 1)) calls
      → Returns (run_all calls (new asn_top_n num_workers)) λ u.
        IsValidOf (max num_workers 1) u.0
        × ((s : Series) → posted s u.1 + waiting s u.0.workers ≡ requests_in calls)
  unfolding new
  run_all-conserves asn_top_n num_workers calls all =
      let n : ℕ = max num_workers 1 in
      let v = new-IsValidOf asn_top_n num_workers in
      let (u, run, (w, counts)) = run_all_lem calls v all in
      (u, run, (w, λ s. omega (arith, counts s, waiting-replicate s n)))
