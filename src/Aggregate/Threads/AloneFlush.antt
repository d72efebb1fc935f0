-- ===== src/Aggregate/Threads/AloneFlush.antt =====
-- A call of `Flush` of exporter/internal/aggregate/aggregate.go that no other call interrupts is
-- the call as one step of Aggregate/Flush.
use ntp_server.Base.{
  ℕ, ◌+◌, ◌<◌, ◌≡◌, refl, Bool, List, [], ◌∷◌, ◌++◌, arith, length, map, length-map, ltb, Returns,
  string_eq,
}
use mathlib.Core.List.{foldl}
use ntp_server.Hll.{Floats}
use ntp_server.Aggregate.{Collector, Shard, Event}
use ntp_server.Aggregate.Asn.{Kv}
use ntp_server.Aggregate.Handle.{sweep_shard, with_shard}
use ntp_server.Aggregate.Keeps.{IsValidOf}
use ntp_server.Aggregate.Threads.{idle, merging, totalling, evicting, expiring, rotating, step}
use ntp_server.Aggregate.Threads.Alone.{Alone, stops, goes, Alone-whole, if-same}
use ntp_server.Base.{◌≤◌}
use ntp_server.Base.Order.{Sorts}
use ntp_server.Hll.{count}
use ntp_server.Aggregate.Valid.{new_default-IsHourly}
use ntp_server.Aggregate.Rotate.{current_bucket-Rotated}
use ntp_server.Aggregate.Flush.{new_asn_totals}
use ntp_server.Aggregate.Flush.Valid.{flush_events, flush_maps-IsValid, merge_all-IsHourly}
use ntp_server.Aggregate.{new_worker_counters, WorkerCounters, clients_active, clients_unique_daily}
use ntp_server.Aggregate.Flush.{
  FlushReading, snapshot, merge_worker, evict_shard, active_count, flush_maps, flush, read_drops,
  publish,
}

snapshot-foldl :
    (acc : WorkerCounters) (ws : List WorkerCounters) → foldl merge_worker acc ws ≡ snapshot acc ws
unfolding snapshot
snapshot-foldl acc [] = refl
snapshot-foldl acc (wc ∷ ws) = snapshot-foldl (merge_worker acc wc) ws

-- the count of the active clients of a shard, added to those before
abbrev count_active : ℕ → ℕ → Shard → ℕ
count_active clock active sh = active + length (evict_shard clock sh).active

active_count-foldl :
    (clock active : ℕ) (shs : List Shard)
    → foldl (count_active clock) active shs ≡ active + active_count (map (evict_shard clock) shs)
unfolding active_count
active_count-foldl clock active [] = omega arith
active_count-foldl clock active (sh ∷ shs) =
    omega (arith, active_count-foldl clock (count_active clock active sh) shs)

active_count-foldl_zero :
    (clock : ℕ) (shs : List Shard)
    → foldl (count_active clock) 0 shs ≡ active_count (map (evict_shard clock) shs)
active_count-foldl_zero clock shs = omega (arith, active_count-foldl clock 0 shs)

module _ {F : Type 0} (sha1 : List ℕ → List ℕ) (fl : Floats F)
    (sort : (Kv → Kv → Bool) → List Kv → List Kv) where
  -- the shards, evicted and swept
  Alone-shards :
      (r : FlushReading) (c d : Collector) {es : List (Event F)}
      → 0 < length c.shards
      → Alone sha1 fl sort
          (rotating r)
          (record c { shards = map (sweep_shard r.wall) (map (evict_shard r.clock) c.shards) })
          d
          es
      → Alone sha1 fl sort
          (evicting r 0 0)
          c
          d
          (clients_active (active_count (map (evict_shard r.clock) c.shards)) ∷ es)
  unfolding step with_shard
  Alone-shards r c d {es} some_shard a =
      let no_events : List (Event F) = [] in
      let evicted = map (evict_shard r.clock) c.shards in
      let swept =
        Alone-whole sha1 fl sort (λ xs. record c { shards = xs }) (sweep_shard r.wall)
          (λ (s : Unit {0}) x. s) (λ s i. expiring r i) (λ s. rotating r) (λ s. [])
          (λ xs i y s at. rw (at, if-same (ltb (i + 1) (length xs)) {x = no_events}) refl) evicted
          tt (omega (arith, length-map (evict_shard r.clock) c.shards)) a in
      let all =
        Alone-whole sha1 fl sort (λ xs. record c { shards = xs }) (evict_shard r.clock)
          (count_active r.clock) (λ s i. evicting r i s) (λ s. expiring r 0)
          (λ s. clients_active s ∷ []) (λ xs i y s at. rw at refl) c.shards 0 some_shard swept in
      rw (active_count-foldl_zero r.clock c.shards) at all

  -- For any valid collector: the steps of a goroutine through `Flush` that no other goroutine
  -- interrupts end, and come to the state and the calls on the metrics of `flush`.
  pub flush-Alone :
      (sorts : Sorts sort) (r : FlushReading) {n : ℕ} {c : Collector}
      → 1 ≤ n
      → IsValidOf n c
      → Returns
          (flush sort fl r c)
          (λ u. Alone sha1 fl sort (merging r 0 new_worker_counters) c u.0 u.2)
  unfolding flush flush_maps step
  flush-Alone sorts r {n} {c} some_worker v =
      let (w, l) = flush_maps-IsValid sort sorts r v in
      let (b, run, (vb, e, reads)) = current_bucket-Rotated r.wall_later w in
      let (h, merged, t) = merge_all-IsHourly b.hourly new_default-IsHourly vb.hourly in
      let snap = snapshot new_worker_counters c.workers in
      let totals = new_asn_totals sort c.asn_totals snap.asn_requests in
      let last = clients_unique_daily (count fl h) ∷ [] in
      let no_events : List (Event F) = [] in
      let read : Alone sha1 fl sort (rotating r) (flush_maps sort r c) b last =
        goes {g' = idle} {c' = b} {es = last} (rw (run, merged) refl) stops in
      let taken = record c { workers = map (λ wc. new_worker_counters) c.workers } in
      let shards =
        Alone-shards r (record taken { asn_totals = totals }) b (omega (arith, v.0.num_shards))
          read in
      let published = (read_drops r.drops r.last_drops).1 ++ publish sort c.asn_top_n totals snap in
      let counted : Alone sha1 fl sort (totalling r snap) taken b (
          published
          ++ (clients_active (active_count (map (evict_shard r.clock) c.shards)) ∷ last)) =
        goes {g' = evicting r 0 0} {es = published} refl shards in
      (
        (b, (read_drops {F = F} r.drops r.last_drops).0, flush_events sort sorts fl r c h),
        rw (run, merged),
        Alone-whole sha1 fl sort (λ xs. record c { workers = xs }) (λ wc. new_worker_counters)
            merge_worker (λ s i. merging r i s) (λ s. totalling r s) (λ s. [])
            (λ xs i y s at. rw (at, if-same (ltb (i + 1) (length xs)) {x = no_events}) refl)
            c.workers new_worker_counters (omega (arith, v.1))
            (rw (snapshot-foldl new_worker_counters c.workers) counted),
      )
