-- ===== src/Aggregate/Threads.antt =====
-- exporter/internal/aggregate/aggregate.go: calls of `HandleFrame` and `Flush` at the same time.
-- A step of a goroutine is one atomic operation or one critical section, with the code of its own
-- around it, calls on the metrics included. What its clocks, the resolver and the drop reader
-- answer is chosen when the call begins.
pub mod Settled
pub mod Places
pub mod Kept
pub mod StepsFrame
pub mod StepsFlush
pub mod Steps
pub mod Conserved
pub mod Alone
pub mod AloneFrame
pub mod AloneFlush
pub mod Uninterrupted
use ntp_server.Base.{
  ℕ, ◌+◌, ◌≡◌, max, Bool, ◌&&◌, some, List, [], ◌∷◌, ◌++◌, map, length, set, get_elem?, replicate,
  ltb, leb, ◌==◌, nat_eq, nat_eqb, string_eq, if◌then◌else◌, Run, ok, ◌>>=◌, or_panic,
}
use ntp_server.Frame.{request}
use ntp_server.Hll.{Floats, new_default, clone, count}
use ntp_server.Aggregate.{
  Collector, WorkerCounters, Event, new, new_worker_counters, pending_sweep_every, shard_index,
  capture_packets, clients_active, clients_unique_daily,
}
use ntp_server.Aggregate.Asn.{Kv}
use ntp_server.Aggregate.Hours.{current_bucket, add_to_current_bucket}
use ntp_server.Aggregate.Handle.{
  Frame, Reading, sweep_shard, count_request, count_response, with_worker, with_shard, touch,
  remember, pair,
}
use ntp_server.Aggregate.Flush.{
  FlushReading, merge_worker, new_asn_totals, publish, evict_shard, merge_all, read_drops,
}
use ntp_server.Aggregate.Flush.Total.{Call, frame, flushes, IsCall}

-- Where a goroutine stands, and its local variables. In `HandleFrame`: before the increment of
-- `framesSinceSweep`, before the compare-and-swap, before the sweep of a shard, before the count,
-- and before the sections on the client's shard and the sketches. In `Flush`: before it takes the
-- counts of a worker, updates the ASN totals, evicts a shard's clients, sweeps a shard, and reads
-- the sketches.
pub data Goroutine : Type 0 where
  idle : Goroutine
  entered counting touching bucketing remembering pairing : Reading → Frame → Goroutine
  added sweeping : Reading → Frame → ℕ → Goroutine
  merging : FlushReading → ℕ → WorkerCounters → Goroutine
  totalling : FlushReading → WorkerCounters → Goroutine
  evicting : FlushReading → ℕ → ℕ → Goroutine
  expiring : FlushReading → ℕ → Goroutine
  rotating : FlushReading → Goroutine

unfoldable pub start_call : Call → Goroutine
start_call (frame r f) = entered r f
start_call (flushes r) = merging r 0 new_worker_counters

-- the next index of a loop over `n` elements, or what follows the loop
abbrev pub next_of : ℕ → ℕ → (ℕ → Goroutine) → Goroutine → Goroutine
next_of i n again done = if ltb (i + 1) n then again (i + 1) else done

-- the collector, its goroutines, and the calls on the metrics so far
pub record System (F : Type 0) : Type 0 where
  pub collector : Collector
  pub threads : List Goroutine
  pub events : List (Event F)

module _ {F : Type 0} where
  unfoldable pub new_system : ℕ → ℕ → ℕ → System F
  new_system asn_top_n num_workers num_threads = record {
    collector = new asn_top_n num_workers;
    threads = replicate num_threads idle;
    events = [];
  }

  unfoldable pub begin_call : ℕ → Call → System F → System F
  begin_call i call s = record s { threads = set s.threads i (start_call call) }

module _ {F : Type 0} (sha1 : List ℕ → List ℕ) (fl : Floats F)
    (sort : (Kv → Kv → Bool) → List Kv → List Kv) where
  unfoldable pub step : Goroutine → Collector → Run (Goroutine × Collector × List (Event F))
  step idle c = ok (idle, c, [])
  step (entered r f) c = do
    wc ← or_panic (get_elem? c.workers f.worker)
    let n = c.frames_since_sweep + 1
    ok (added r f n, record c { frames_since_sweep = n }, [])
  step (added r f n) c =
      if leb pending_sweep_every n && nat_eqb c.frames_since_sweep n
      then ok (sweeping r f 0, record c { frames_since_sweep = 0 }, [])
      else ok (counting r f, c, [])
  step (sweeping r f i) c = do
    (c', events) ← with_shard i (λ sh. (sweep_shard f.ts sh, [])) c
    ok (next_of i (length c.shards) (sweeping r f) (counting r f), c', events)
  step (counting r f) c =
      if f.direction == request
      then (do
        c' ← with_worker f.worker (count_request r.geo f.version f.family) c
        ok (touching r f, c', capture_packets f.direction ∷ []))
      else (do
        c' ← with_worker f.worker (count_response r.geo) c
        ok (pairing r f, c', capture_packets f.direction ∷ []))
  step (touching r f) c = do
    (c', events) ← with_shard (shard_index f.ip) (touch f.ip r.clock) c
    ok (bucketing r f, c', events)
  step (bucketing r f) c = do
    c' ← add_to_current_bucket sha1 r.wall f.ip c
    ok (remembering r f, c', [])
  step (remembering r f) c = do
    (c', events) ← with_shard (shard_index f.ip) (remember f.ip f.xid f.ts) c
    ok (idle, c', events)
  step (pairing r f) c = do
    (c', events) ← with_shard (shard_index f.ip) (pair f.ip f.xid f.ts) c
    ok (idle, c', events)
  step (merging r i snap) c = do
    wc ← or_panic (get_elem? c.workers i)
    let all = merge_worker snap wc
    ok (
      next_of i (length c.workers) (λ j. merging r j all) (totalling r all),
      record c { workers = set c.workers i new_worker_counters },
      [],
    )
  step (totalling r snap) c =
      let totals = new_asn_totals sort c.asn_totals snap.asn_requests in
      ok (
        evicting r 0 0,
        record c { asn_totals = totals },
        (read_drops r.drops r.last_drops).1 ++ publish sort c.asn_top_n totals snap,
      )
  step (evicting r i active) c = do
    sh ← or_panic (get_elem? c.shards i)
    let sh' = evict_shard r.clock sh
    let total = active + length sh'.active
    ok (
      next_of i (length c.shards) (λ j. evicting r j total) (expiring r 0),
      record c { shards = set c.shards i sh' },
      if ltb (i + 1) (length c.shards) then [] else clients_active total ∷ [],
    )
  step (expiring r i) c = do
    (c', events) ← with_shard i (λ sh. (sweep_shard r.wall sh, [])) c
    ok (next_of i (length c.shards) (expiring r) (rotating r), c', events)
  step (rotating r) c = do
    c' ← current_bucket r.wall_later c
    merged ← merge_all new_default (map clone c'.hourly)
    ok (idle, c', clients_unique_daily (count fl merged) ∷ [])

  unfoldable pub advance : ℕ → Goroutine → System F → Run (System F)
  advance i g s = do
    (g', c, events) ← step g s.collector
    ok (record { collector = c; threads = set s.threads i g'; events = s.events ++ events })

  -- `Reaches a n m calls r`: from a new collector for `n` workers, `m` goroutines can reach `r`,
  -- a state or a panic, in any order of their steps; `calls` are those begun, the last one first.
  pub data Reaches (asn_top_n num_workers num_threads : ℕ)
      : List Call → Run (System F) → Type 0 where
    started :
        Reaches asn_top_n num_workers num_threads []
          (ok (new_system asn_top_n num_workers num_threads))
    begins :
        {calls : List Call} {s : System F} (i : ℕ) (call : Call)
        → Reaches asn_top_n num_workers num_threads calls (ok s)
        → IsCall (max num_workers 1) call
        → get_elem? s.threads i ≡ some idle
        → Reaches asn_top_n num_workers num_threads (call ∷ calls) (ok (begin_call i call s))
    goes_on :
        {calls : List Call} {s : System F} (i : ℕ) (g : Goroutine)
        → Reaches asn_top_n num_workers num_threads calls (ok s)
        → get_elem? s.threads i ≡ some g
        → Reaches asn_top_n num_workers num_threads calls (advance i g s)
