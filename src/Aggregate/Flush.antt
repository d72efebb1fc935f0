-- ===== src/Aggregate/Flush.antt =====
-- exporter/internal/aggregate/aggregate.go: `Flush`. What `readDrops` and the clocks answer during
-- the call is an argument, with the caller's cumulative drop count; floats and `sort.Slice` are
-- parameters. The result is the new state, the new drop count and the calls on the metrics.
pub mod Ledger
pub mod Valid
pub mod Steps
pub mod Total
pub mod Countries
pub mod Drops
use ntp_server.Base.{
  ℕ, ◌+◌, ◌-◌, Bool, Option, none, some, List, [], ◌∷◌, ◌++◌, map, length, ltb, leb, if◌then◌else◌,
  GoString, Run, ok, ◌>>=◌, nat_eq, string_eq,
}
use ntp_server.Base.GoMap.{GoMap, delete_where}
use ntp_server.Base.Counters.{value, bump, merge_into}
use ntp_server.Hll.{HyperLogLog, Floats, new_default, merge, clone, count}
use ntp_server.Aggregate.{
  Collector, WorkerCounters, Shard, CountryKey, AsnKey, Event, country_key_eq, asn_key_eq,
  new_worker_counters, active_window, asn_totals_max, kernel_drops, client_requests, client_drops,
  requests_by_asn, requests_by_version, requests_by_family, clients_active, clients_unique_daily,
}
use ntp_server.Aggregate.Asn.{Kv, top_n_asns, prune_to_largest, fold_asn}
use ntp_server.Aggregate.Handle.{sweep_shard}
use ntp_server.Aggregate.Hours.{current_bucket}

-- `readDrops()`, none for a nil reader, and `*lastDrops`, none for a nil pointer; `c.clock()` and
-- the two answers of `c.wall()`
pub record FlushReading : Type 0 where
  pub drops : Option ℕ
  pub last_drops : Option ℕ
  pub clock : ℕ
  pub wall : ℕ
  pub wall_later : ℕ

-- the maps of one worker, added to the snapshot
unfoldable pub merge_worker : WorkerCounters → WorkerCounters → WorkerCounters
merge_worker acc wc = record {
  requests = merge_into acc.requests wc.requests;
  responses = merge_into acc.responses wc.responses;
  asn_requests = merge_into acc.asn_requests wc.asn_requests;
  version_requests = merge_into acc.version_requests wc.version_requests;
  family_requests = merge_into acc.family_requests wc.family_requests;
}

unfoldable pub snapshot : WorkerCounters → List WorkerCounters → WorkerCounters
snapshot acc [] = acc
snapshot acc (wc ∷ workers) = snapshot (merge_worker acc wc) workers

-- the cumulative ASN totals
unfoldable pub add_asn_totals : GoMap ℕ ℕ → GoMap AsnKey ℕ → GoMap ℕ ℕ
add_asn_totals totals [] = totals
add_asn_totals totals ((k, n) ∷ m) =
    add_asn_totals (if k.has_asn then bump k.asn n totals else totals) m

unfoldable pub evict_shard : ℕ → Shard → Shard
evict_shard clock sh = record sh {
  active = delete_where (λ seen. ltb (seen + active_window) clock) sh.active;
}

unfoldable pub active_count : List Shard → ℕ
active_count [] = 0
active_count (sh ∷ shards) = length sh.active + active_count shards

-- the sketches of a snapshot, merged into one
unfoldable pub merge_all : HyperLogLog → List HyperLogLog → Run HyperLogLog
merge_all h [] = ok h
merge_all h (s ∷ ss) = do h' ← merge h s; merge_all h' ss

module _ {F : Type 0} where
  -- the kernel's drop count, if it has not gone backwards
  unfoldable pub read_drops : Option ℕ → Option ℕ → Option ℕ × List (Event F)
  read_drops none last = (last, [])
  read_drops (some cur) none = (none, [])
  read_drops (some cur) (some last) = (
    some cur,
    if leb last cur
        then (if ltb 0 (cur - last) then kernel_drops (cur - last) ∷ [] else [])
        else [],
  )

  -- the requests of each country, and those that no response answered
  unfoldable pub publish_requests : GoMap CountryKey ℕ → GoMap CountryKey ℕ → List (Event F)
  publish_requests responses [] = []
  publish_requests responses ((k, n) ∷ m) =
      let rest = publish_requests responses m in
      client_requests k.country k.continent n
      ∷ (if ltb (value k responses) n
          then client_drops k.country k.continent (n - value k responses) ∷ rest
          else rest)

  unfoldable pub publish_asns : List ℕ → GoMap AsnKey ℕ → List (Event F)
  publish_asns top [] = []
  publish_asns top ((k, n) ∷ m) =
      let (asn, org) = fold_asn k.asn k.has_asn k.as_org top in
      requests_by_asn asn org n ∷ publish_asns top m

  unfoldable pub publish_versions : GoMap GoString ℕ → List (Event F)
  publish_versions [] = []
  publish_versions ((v, n) ∷ m) = requests_by_version v n ∷ publish_versions m

  unfoldable pub publish_families : GoMap GoString ℕ → List (Event F)
  publish_families [] = []
  publish_families ((f, n) ∷ m) = requests_by_family f n ∷ publish_families m

module _ (sort : (Kv → Kv → Bool) → List Kv → List Kv) where
  -- `c.asnTotals` after the flush
  unfoldable pub new_asn_totals : GoMap ℕ ℕ → GoMap AsnKey ℕ → GoMap ℕ ℕ
  new_asn_totals totals asn_requests =
      let all = add_asn_totals totals asn_requests in
      if ltb asn_totals_max (length all) then prune_to_largest sort all asn_totals_max else all

  -- what the flush publishes of the snapshot; a negative `asnTopN` is like 0
  unfoldable pub publish : {F : Type 0} → ℕ → GoMap ℕ ℕ → WorkerCounters → List (Event F)
  publish asn_top_n totals snap =
      publish_requests snap.responses snap.requests
      ++ publish_asns (top_n_asns sort totals asn_top_n) snap.asn_requests
      ++ publish_versions snap.version_requests
      ++ publish_families snap.family_requests

  -- the state up to the rotation of the sketches
  unfoldable pub flush_maps : FlushReading → Collector → Collector
  flush_maps r c = record c {
    workers = map (λ wc. new_worker_counters) c.workers;
    asn_totals = new_asn_totals c.asn_totals (snapshot new_worker_counters c.workers).asn_requests;
    shards = map (sweep_shard r.wall) (map (evict_shard r.clock) c.shards);
  }

  -- `Flush`
  unfoldable pub flush :
      {F : Type 0}
      → Floats F
      → FlushReading
      → Collector
      → Run (Collector × Option ℕ × List (Event F))
  flush fl r c =
      let snap = snapshot new_worker_counters c.workers in
      let drops = read_drops r.drops r.last_drops in
      let c' = flush_maps r c in
      do
        c'' ← current_bucket r.wall_later c'
        merged ← merge_all new_default (map clone c''.hourly)
        ok (
          c'',
          drops.0,
          drops.1
              ++ publish c.asn_top_n c'.asn_totals snap
              ++ (clients_active (active_count (map (evict_shard r.clock) c.shards))
                  ∷ clients_unique_daily (count fl merged)
                  ∷ []),
        )
