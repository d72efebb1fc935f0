-- ===== src/Aggregate/Keeps.antt =====
-- The parts of `HandleFrame` of exporter/internal/aggregate/aggregate.go that keep the collector
-- valid: the sweep, the sketch of the current hour, and the update of one worker and one shard.
use ntp_server.Base.{
  ℕ, ◌+◌, ◌<◌, ◌≡◌, ◌∙◌, ap, true, inl, inr, List, [], ◌∷◌, arith, length, set, get_elem?-lt, map,
  length-map, length-set, All, All-get, All-set, leb, Bool-cases, GoString, Returns, string_eq, max,
  length-replicate,
}
use ntp_server.Hll.Registers.{raise}
use ntp_server.Hll.Bounds.{slot, rank, add-raise, raise-IsSketch}
use ntp_server.Aggregate.{Collector, WorkerCounters, Shard, new, new_worker_counters, shard_index}
use ntp_server.Aggregate.Hours.{hour_of, add_to_current_bucket}
use ntp_server.Aggregate.Handle.{sweep_shard, sweep}
use ntp_server.Aggregate.Valid.{
  IsValid, IsValidWorker, IsValidShard, IsHourly, new-IsValid, sweep_shard-IsValidShard,
}
use ntp_server.Aggregate.Rotate.{IsValid-hourly, put_hour-ok, current_bucket-Rotated}

-- valid, with `n` workers
abbrev pub IsValidOf : ℕ → Collector → Type 0
IsValidOf n c = IsValid c × (length c.workers ≡ n)

pub new-IsValidOf :
    (asn_top_n num_workers : ℕ) → IsValidOf (max num_workers 1) (new asn_top_n num_workers)
unfolding new
new-IsValidOf asn_top_n num_workers = (
  (new-IsValid asn_top_n num_workers).0,
  length-replicate {0} (max num_workers 1) new_worker_counters,
)

All-map-sweep :
    (ts : ℕ) (shards : List Shard)
    → All IsValidShard shards
    → All IsValidShard (map (sweep_shard ts) shards)
All-map-sweep ts [] w = tt
All-map-sweep ts (sh ∷ shards) w = (sweep_shard-IsValidShard ts sh w.0, All-map-sweep ts shards w.1)

pub sweep-IsValid : (ts n : ℕ) {c : Collector} → IsValidOf n c → IsValidOf n (sweep ts c)
unfolding sweep
sweep-IsValid ts n {c} (w, l) = elim (Bool-cases (leb 1024 (c.frames_since_sweep + 1))) [
  | inl due ↦
      rw (sweep, due)
        (
          record {
            workers = w.workers;
            shards = All-map-sweep ts c.shards w.shards;
            num_shards = length-map (sweep_shard ts) c.shards ∙ w.num_shards;
            sweeping = omega arith;
            asn_totals = w.asn_totals;
            hourly = w.hourly;
            hours = w.hours;
            hour = w.hour;
          },
          l,
        )
  | inr not_due ↦
      rw (sweep, not_due)
        (
          record {
            workers = w.workers;
            shards = w.shards;
            num_shards = w.num_shards;
            sweeping = ground arith;
            asn_totals = w.asn_totals;
            hourly = w.hourly;
            hours = w.hours;
            hour = w.hour;
          },
          l,
        )
]

pub shard_index-lt : (ip : GoString) → shard_index ip < 16
unfolding shard_index
shard_index-lt ip = omega arith

hour_of-lt : (wall : ℕ) → hour_of wall < 24
unfolding hour_of
hour_of-lt wall = omega arith

-- adding to the current bucket changes the sketches and the current hour alone
pub add_to_current_bucket-IsValid :
    (sha1 : List ℕ → List ℕ) (wall : ℕ) (ip : GoString) {c : Collector}
    → IsValid c
    → Returns (add_to_current_bucket sha1 wall ip c) λ c'.
      IsValid c' × (c' ≡ record c { hourly = c'.hourly; hour = hour_of wall; hour_set = true })
unfolding add_to_current_bucket
add_to_current_bucket-IsValid sha1 wall ip {c} w =
    let hour : ℕ = hour_of wall in
    let (b, run, (v, e, reads)) = current_bucket-Rotated wall w in
    let room : hour < length b.hourly = omega (arith, v.hours, hour_of-lt wall) in
    let (s, found) = get_elem?-lt b.hourly hour room in
    let (valid, p) = All-get IsHourly b.hourly hour found v.hourly in
    let s' = record s {
      registers = raise (slot sha1 s.bits ip) (rank sha1 s.bits ip) s.registers;
    } in
    let hourly = set b.hourly hour s' in
    (
      record b { hourly = hourly },
      rw (run, found, add-raise sha1 valid ip, put_hour-ok b.hourly hour s' room),
      (
        IsValid-hourly v hourly b.hour b.hour_set (length-set b.hourly hour s' ∙ v.hours)
            (All-set IsHourly b.hourly hour s' (raise-IsSketch sha1 valid ip, p) v.hourly) v.hour,
        ap (λ (d : Collector). record d { hourly = hourly }) e,
      ),
    )

pub IsValid-shard :
    {c : Collector} (k : ℕ) (sh : Shard)
    → IsValid c
    → IsValidShard sh
    → IsValid (record c { shards = set c.shards k sh })
IsValid-shard {c} k sh w ws = record {
  workers = w.workers;
  shards = All-set IsValidShard c.shards k sh ws w.shards;
  num_shards = length-set c.shards k sh ∙ w.num_shards;
  sweeping = w.sweeping;
  asn_totals = w.asn_totals;
  hourly = w.hourly;
  hours = w.hours;
  hour = w.hour;
}

-- a worker's counters and a client's shard are replaced
pub IsValid-set :
    {c : Collector} (i k : ℕ) (wc : WorkerCounters) (sh : Shard)
    → IsValid c
    → IsValidWorker wc
    → IsValidShard sh
    → IsValid (record c { workers = set c.workers i wc; shards = set c.shards k sh })
IsValid-set {c} i k wc sh w ww ws = record {
  workers = All-set IsValidWorker c.workers i wc ww w.workers;
  shards = All-set IsValidShard c.shards k sh ws w.shards;
  num_shards = length-set c.shards k sh ∙ w.num_shards;
  sweeping = w.sweeping;
  asn_totals = w.asn_totals;
  hourly = w.hourly;
  hours = w.hours;
  hour = w.hour;
}
