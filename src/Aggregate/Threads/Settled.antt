-- ===== src/Aggregate/Threads/Settled.antt =====
-- What every state of a shared collector satisfies between the steps of
-- exporter/internal/aggregate/aggregate.go: all that holds between whole calls, but for the
-- number of frames since the last sweep.
use ntp_server.Base.{
  ℕ, ◌+◌, ◌%◌, ◌≡◌, ◌∙◌, refl, ap, true, inl, inr, List, arith, length, set, get_elem?, length-set,
  nat_eqb, All-set, Bool-cases, GoString, or_panic, Run-cases, Run, ok, ◌>>=◌, Returns,
}
use ntp_server.Base.{nat_eq}
use ntp_server.Base.GoMap.{GoMap, UniqueKeys}
use ntp_server.Hll.{add}
use ntp_server.Aggregate.{Collector, WorkerCounters, Shard}
use ntp_server.Aggregate.Hours.{
  hour_of, clear_hours, put_hour, current_bucket, add_to_current_bucket,
}
use ntp_server.Aggregate.Valid.{IsValid, IsValidWorker, IsValidShard}
use ntp_server.Aggregate.Rotate.{current_bucket-Rotated}
use ntp_server.Aggregate.Keeps.{add_to_current_bucket-IsValid, IsValid-shard}

abbrev pub still : Collector → Collector
still c = record c { frames_since_sweep = 0 }

abbrev pub IsSettled : ℕ → Collector → Type 0
IsSettled n c = IsValid (still c) × (length c.workers ≡ n)

-- the sections under `hourlyMu` leave the number of frames alone
abbrev with_frames : ℕ → Collector → Run Collector
with_frames n d = ok (record d { frames_since_sweep = n })

current_bucket-still :
    (wall : ℕ) (c : Collector)
    → current_bucket wall c ≡ (current_bucket wall (still c) >>= with_frames c.frames_since_sweep)
unfolding current_bucket
current_bucket-still wall c = elim (Bool-cases c.hour_set) [
  | inr unset ↦ rw (current_bucket, unset) refl
  | inl set_before ↦ elim (Bool-cases (nat_eqb (hour_of wall) c.hour)) [
    | inl same ↦ rw (current_bucket, set_before, same) refl
    | inr other ↦ elim (Run-cases (clear_hours 24 ((c.hour + 1) % 24) (hour_of wall) c.hourly)) [
      | inl fails ↦ rw (current_bucket, set_before, other, fails) refl
      | inr (hourly, run) ↦ rw (current_bucket, set_before, other, run) refl
    ]
  ]
]

add_to_current_bucket-still :
    (sha1 : List ℕ → List ℕ) (wall : ℕ) (ip : GoString) (c : Collector)
    → add_to_current_bucket sha1 wall ip c
      ≡ (add_to_current_bucket sha1 wall ip (still c) >>= with_frames c.frames_since_sweep)
unfolding add_to_current_bucket
add_to_current_bucket-still sha1 wall ip c =
    rw (current_bucket-still wall c) (elim (Run-cases (current_bucket wall (still c))) [
      | inl fails ↦ rw fails refl
      | inr (d, run) ↦ rw run (elim (Run-cases (or_panic (get_elem? d.hourly (hour_of wall)))) [
        | inl fails ↦ rw fails refl
        | inr (s, found) ↦ rw found (elim (Run-cases (add sha1 s ip)) [
          | inl fails ↦ rw fails refl
          | inr (s', added) ↦ rw added (elim (Run-cases (put_hour d.hourly (hour_of wall) s')) [
            | inl fails ↦ rw fails refl
            | inr (hourly, put) ↦ rw put refl
          ])
        ])
      ])
    ])

pub IsValid-still : {c : Collector} → IsValid c → IsValid (still c)
IsValid-still w = record {
  workers = w.workers;
  shards = w.shards;
  num_shards = w.num_shards;
  sweeping = omega arith;
  asn_totals = w.asn_totals;
  hourly = w.hourly;
  hours = w.hours;
  hour = w.hour;
}

-- `d` is `c` but for the sketches and the hour.
abbrev pub SameTables : ℕ → Collector → Collector → Type 0
SameTables wall c d = d ≡ record c { hourly = d.hourly; hour = hour_of wall; hour_set = true }

-- what a section under `hourlyMu` makes of the collector
with_frames-IsSettled :
    (wall : ℕ) {n : ℕ} (c d : Collector)
    → IsSettled n c
    → IsValid d
    → SameTables wall (still c) d
    → IsSettled n (record d { frames_since_sweep = c.frames_since_sweep })
      × SameTables wall c (record d { frames_since_sweep = c.frames_since_sweep })
with_frames-IsSettled wall c d (v, l) w e = (
  (IsValid-still w, ap (λ (b : Collector). length b.workers) e ∙ l),
  ap (λ (b : Collector). record b { frames_since_sweep = c.frames_since_sweep }) e,
)

pub current_bucket-IsSettled :
    (wall : ℕ) {n : ℕ} {c : Collector}
    → IsSettled n c
    → Returns (current_bucket wall c) (λ d. IsSettled n d × SameTables wall c d)
current_bucket-IsSettled wall {n} {c} w =
    let (d, run, (v, e, reads)) = current_bucket-Rotated wall w.0 in
    (_, rw (current_bucket-still wall c, run) refl, with_frames-IsSettled wall c d w v e)

pub add_to_current_bucket-IsSettled :
    (sha1 : List ℕ → List ℕ) (wall : ℕ) (ip : GoString) {n : ℕ} {c : Collector}
    → IsSettled n c
    → Returns (add_to_current_bucket sha1 wall ip c) (λ d. IsSettled n d × SameTables wall c d)
add_to_current_bucket-IsSettled sha1 wall ip {n} {c} w =
    let (d, run, (v, e)) = add_to_current_bucket-IsValid sha1 wall ip w.0 in
    (
      _,
      rw (add_to_current_bucket-still sha1 wall ip c, run) refl,
      with_frames-IsSettled wall c d w v e,
    )

-- one shard is replaced
pub IsSettled-shard :
    {n : ℕ} (c : Collector) (k : ℕ) (sh : Shard)
    → IsSettled n c
    → IsValidShard sh
    → IsSettled n (record c { shards = set c.shards k sh })
IsSettled-shard c k sh (v, l) w = (IsValid-shard k sh v w, l)

-- one worker's counters are replaced
pub IsSettled-worker :
    {n : ℕ} (c : Collector) (i : ℕ) (wc : WorkerCounters)
    → IsSettled n c
    → IsValidWorker wc
    → IsSettled n (record c { workers = set c.workers i wc })
IsSettled-worker c i wc (v, l) w = (
  record {
    workers = All-set IsValidWorker c.workers i wc w v.workers;
    shards = v.shards;
    num_shards = v.num_shards;
    sweeping = v.sweeping;
    asn_totals = v.asn_totals;
    hourly = v.hourly;
    hours = v.hours;
    hour = v.hour;
  },
  length-set c.workers i wc ∙ l,
)

pub IsSettled-asn_totals :
    {n : ℕ} (c : Collector) (totals : GoMap ℕ ℕ)
    → IsSettled n c
    → UniqueKeys totals
    → IsSettled n (record c { asn_totals = totals })
IsSettled-asn_totals c totals (v, l) u = (
  record {
    workers = v.workers;
    shards = v.shards;
    num_shards = v.num_shards;
    sweeping = v.sweeping;
    asn_totals = u;
    hourly = v.hourly;
    hours = v.hours;
    hour = v.hour;
  },
  l,
)
