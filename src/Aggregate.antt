-- ===== src/Aggregate.antt =====
-- exporter/internal/aggregate/aggregate.go: the data of the collector and `New`. Instants are
-- nanoseconds since the Unix epoch, ASNs and int64 counts are unbounded numbers (a counter would
-- wrap after 2 ^ 63 packets), and a string is the list of its bytes.
pub mod Hours
pub mod Handle
pub mod Valid
pub mod Rotate
pub mod Keeps
pub mod Invariant
pub mod Pending
pub mod Handled
pub mod Latency
pub mod Keys
pub mod Asn
pub mod Strings
pub mod Ranking
pub mod Flush
pub mod Threads
pub mod Accessors
use Prim.Native.Nat.{bit_xor}
use ntp_server.Base.{
  ℕ, zero, suc, ◌+◌, ◌*◌, ◌%◌, ◌^◌, ◌≡◌, ◌↔◌, Bool, true, false, ◌&&◌, Option, List, [], ◌∷◌, ◌++◌,
  arith, replicate, max, Equality, ◌==◌, nat_eq, string_eq, list_eqb, list_eqb_iff, nat_eqb,
  GoString, bytes, if◌then◌else◌,
}
use ntp_server.Base.Int.{ℤ}
use ntp_server.Base.GoMap.{GoMap}
use ntp_server.Hll.{HyperLogLog, new_default}

-- `ActiveWindow` and `PendingTTL`, in nanoseconds
abbrev pub active_window : ℕ
active_window = 300_000_000_000

abbrev pub pending_ttl : ℕ
pending_ttl = 2_000_000_000

abbrev pub pending_max : ℕ
pending_max = 50000

abbrev pub pending_sweep_every : ℕ
pending_sweep_every = 1024

abbrev pub asn_totals_max : ℕ
asn_totals_max = 4096

abbrev pub num_shards : ℕ
num_shards = 16

pub record GeoResult : Type 0 where
  pub country : GoString
  pub continent : GoString
  pub asn : ℕ
  pub has_asn : Bool
  pub as_org : GoString

pub record CountryKey : Type 0 where
  pub country : GoString
  pub continent : GoString

pub record AsnKey : Type 0 where
  pub asn : ℕ
  pub has_asn : Bool
  pub as_org : GoString

abbrev bool_eqb : Bool → Bool → Bool
bool_eqb true b = b
bool_eqb false true = false
bool_eqb false false = true

pub country_key_eqb_iff :
    (a b : CountryKey)
    → ((list_eqb a.country b.country && list_eqb a.continent b.continent) ≡ true) ↔ (a ≡ b)
country_key_eqb_iff a b =
    ground (arith, list_eqb_iff a.country b.country, list_eqb_iff a.continent b.continent)

instance abbrev pub country_key_eq : Equality CountryKey
country_key_eq = record {
  equal = λ a b. list_eqb a.country b.country && list_eqb a.continent b.continent;
  equal_iff = country_key_eqb_iff;
}

pub asn_key_eqb_iff :
    (a b : AsnKey)
    → ((nat_eqb a.asn b.asn && (bool_eqb a.has_asn b.has_asn && list_eqb a.as_org b.as_org)) ≡ true)
      ↔ (a ≡ b)
asn_key_eqb_iff a b = ground (arith, list_eqb_iff a.as_org b.as_org)

instance abbrev pub asn_key_eq : Equality AsnKey
asn_key_eq = record {
  equal =
      λ a b. nat_eqb a.asn b.asn && (bool_eqb a.has_asn b.has_asn && list_eqb a.as_org b.as_org);
  equal_iff = asn_key_eqb_iff;
}

-- `workerCounters`
pub record WorkerCounters : Type 0 where
  pub requests : GoMap CountryKey ℕ
  pub responses : GoMap CountryKey ℕ
  pub asn_requests : GoMap AsnKey ℕ
  pub version_requests : GoMap GoString ℕ
  pub family_requests : GoMap GoString ℕ

abbrev pub new_worker_counters : WorkerCounters
new_worker_counters = record {
  requests = [];
  responses = [];
  asn_requests = [];
  version_requests = [];
  family_requests = [];
}

-- `shard`: the time of each pending request, and when each client was last seen
pub record Shard : Type 0 where
  pub pending : GoMap GoString ℕ
  pub active : GoMap GoString ℕ

abbrev pub empty_shard : Shard
empty_shard = record { pending = []; active = [] }

-- `fnv.New32a` of `hash/fnv` over the bytes of a string
unfoldable pub fnv32a : ℕ → GoString → ℕ
fnv32a h [] = h
fnv32a h (b ∷ s) = fnv32a (bit_xor h b * 16777619 % 2 ^ 32) s

-- `shardIndex(ip)`
unfoldable pub shard_index : GoString → ℕ
shard_index ip = fnv32a 2166136261 ip % num_shards

-- `pendingKey(ip, xid)`
unfoldable pub pending_key : GoString → List ℕ → GoString
pending_key ip xid = ip ++ (b'|' ∷ xid)

-- `Collector`; the resolver, the clocks and the metrics are arguments and results of the methods
pub record Collector : Type 0 where
  pub asn_top_n : ℕ
  pub workers : List WorkerCounters
  pub shards : List Shard
  pub frames_since_sweep : ℕ
  pub asn_totals : GoMap ℕ ℕ
  pub hourly : List HyperLogLog
  pub hour : ℕ
  pub hour_set : Bool

-- `New`: `numWorkers` below 1 counts as 1
unfoldable pub new : ℕ → ℕ → Collector
new asn_top_n num_workers = record {
  asn_top_n = asn_top_n;
  workers = replicate (max num_workers 1) new_worker_counters;
  shards = replicate num_shards empty_shard;
  frames_since_sweep = 0;
  asn_totals = [];
  hourly = replicate 24 new_default;
  hour = 0;
  hour_set = false;
}

-- The calls on the metrics, in the order in which they are made; durations are in nanoseconds.
pub data Event (F : Type 0) : Type 0 where
  capture_packets : GoString → Event F
  request_interval : ℤ → Event F
  pending_overflow : Event F
  response_latency : ℕ → Event F
  kernel_drops : ℕ → Event F
  client_requests client_drops : GoString → GoString → ℕ → Event F
  requests_by_asn : GoString → GoString → ℕ → Event F
  requests_by_version requests_by_family : GoString → ℕ → Event F
  clients_active : ℕ → Event F
  clients_unique_daily : F → Event F
