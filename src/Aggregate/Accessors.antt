-- ===== src/Aggregate/Accessors.antt =====
-- exporter/internal/aggregate/aggregate.go: what the tests ask of a collector, and change in it.
use ntp_server.Base.{
  ℕ, ◌*◌, ◌≤◌, Bool, List, [], ◌∷◌, arith, length, get_elem?, GoString, All, Run, ok, ◌>>=◌,
  or_panic, sum_of,
}
use ntp_server.Hll.{Floats, add, count}
use ntp_server.Aggregate.{Collector, Shard, pending_max}
use ntp_server.Aggregate.Hours.{put_hour}
use ntp_server.Aggregate.Valid.{IsValidShard}

abbrev shard_pending : Shard → ℕ
shard_pending sh = length sh.pending

abbrev shard_active : Shard → ℕ
shard_active sh = length sh.active

-- `PendingLen`
unfoldable pub pending_len : Collector → ℕ
pending_len c = sum_of shard_pending c.shards

-- `ActiveLen`
unfoldable pub active_len : Collector → ℕ
active_len c = sum_of shard_active c.shards

-- `HourBucketCount`
unfoldable pub hour_bucket_count : {F : Type 0} → Floats F → ℕ → Collector → Run F
hour_bucket_count fl hour c = do s ← or_panic (get_elem? c.hourly hour); ok (count fl s)

-- `AddToHourBucket`
unfoldable pub add_to_hour_bucket : (List ℕ → List ℕ) → ℕ → GoString → Collector → Run Collector
add_to_hour_bucket sha1 hour key c = do
  s ← or_panic (get_elem? c.hourly hour)
  s' ← add sha1 s key
  hourly ← put_hour c.hourly hour s'
  ok (record c { hourly = hourly })

-- `CurrentHour`
unfoldable pub current_hour : Collector → ℕ × Bool
current_hour c = (c.hour, c.hour_set)

-- the pending requests of valid shards
pub pending-bound :
    (shards : List Shard)
    → All IsValidShard shards
    → sum_of shard_pending shards ≤ length shards * pending_max
pending-bound [] v = omega arith
pending-bound (sh ∷ shards) v = omega (arith, v.0.0, pending-bound shards v.1)
