-- ===== src/Aggregate/Valid.antt =====
-- What every state of the collector satisfies, and that the steps of `HandleFrame` keep it.
use ntp_server.Base.{
  ℕ, ◌≤◌, ◌<◌, ◌≡◌, refl, sym, ◌∙◌, inl, inr, Option, none, some, List, arith, length, All,
  All-replicate, length-replicate, leb, Bool-cases, Option-cases, GoString, ok, max, nat_eq,
  string_eq,
}
use ntp_server.Base.GoMap.{
  lookup, insert, delete, UniqueKeys, insert-UniqueKeys, delete-UniqueKeys, delete_where-UniqueKeys,
  length-insert_new, length-insert_old, length-delete-le, length-delete_where-le,
}
use ntp_server.Base.Counters.{bump-UniqueKeys}
use ntp_server.Hll
use ntp_server.Hll.{HyperLogLog, new_default, add}
use ntp_server.Hll.Registers.{register}
use ntp_server.Hll.Bounds.{IsSketch, new-IsSketch}
use ntp_server.Aggregate.{
  Collector, WorkerCounters, Shard, GeoResult, country_key_eq, asn_key_eq, new, new_worker_counters,
  empty_shard, num_shards, pending_max, pending_key,
}
use ntp_server.Aggregate.Handle.{
  is_stale, sweep_shard, count_request, count_response, touch, remember, pair,
}

abbrev pub IsValidWorker : WorkerCounters → Type 0
IsValidWorker wc =
    UniqueKeys wc.requests
    × UniqueKeys wc.responses
    × UniqueKeys wc.asn_requests
    × UniqueKeys wc.version_requests
    × UniqueKeys wc.family_requests

-- at most `pending_max` requests are pending in a shard
abbrev pub IsValidShard : Shard → Type 0
IsValidShard sh = (length sh.pending ≤ pending_max) × UniqueKeys sh.pending × UniqueKeys sh.active

abbrev pub IsHourly : HyperLogLog → Type 0
IsHourly s = IsSketch s × (s.p ≡ 14)

pub record IsValid (c : Collector) : Type 0 where
  pub workers : All IsValidWorker c.workers
  pub shards : All IsValidShard c.shards
  pub num_shards : length c.shards ≡ 16
  pub sweeping : c.frames_since_sweep < 1024
  pub asn_totals : UniqueKeys c.asn_totals
  pub hourly : All IsHourly c.hourly
  pub hours : length c.hourly ≡ 24
  pub hour : c.hour < 24

-- `New(14)` does not panic, and is the default sketch
pub new-14 : Hll.new 14 ≡ ok new_default
unfolding Hll.new new_default
new-14 = refl

pub new_default-IsHourly : IsHourly new_default
new_default-IsHourly =
    let (h, run, t) = new-IsSketch 14 (omega arith) in
    let e : ok h ≡ ok new_default = sym run ∙ new-14 in
    let e' : h ≡ new_default = cc in rw e' at (unpack h t)
  where
    unpack :
        (h : HyperLogLog)
        → IsSketch h × (h.p ≡ 14) × ((i : ℕ) → register h.registers i ≡ 0)
        → IsHourly h
    unpack h t = (t.0, t.1)

pub new-IsValid :
    (asn_top_n num_workers : ℕ)
    → IsValid (new asn_top_n num_workers) × (1 ≤ length (new asn_top_n num_workers).workers)
unfolding new
new-IsValid asn_top_n num_workers = (
  record {
    workers =
        All-replicate IsValidWorker (max num_workers 1) new_worker_counters (tt, tt, tt, tt, tt);
    shards = All-replicate IsValidShard num_shards empty_shard (omega arith, tt, tt);
    num_shards = length-replicate num_shards empty_shard;
    sweeping = omega arith;
    asn_totals = tt;
    hourly = All-replicate IsHourly 24 new_default new_default-IsHourly;
    hours = length-replicate 24 new_default;
    hour = omega arith;
  },
  omega (arith, length-replicate {0} (max num_workers 1) new_worker_counters),
)

pub count_request-IsValidWorker :
    (geo : GeoResult) (version family : GoString) (wc : WorkerCounters)
    → IsValidWorker wc
    → IsValidWorker (count_request geo version family wc)
unfolding count_request
count_request-IsValidWorker geo version family wc w = (
  bump-UniqueKeys _ 1 wc.requests w.0,
  w.1,
  bump-UniqueKeys _ 1 wc.asn_requests w.2,
  bump-UniqueKeys _ 1 wc.version_requests w.3,
  bump-UniqueKeys _ 1 wc.family_requests w.4,
)

pub count_response-IsValidWorker :
    (geo : GeoResult) (wc : WorkerCounters)
    → IsValidWorker wc
    → IsValidWorker (count_response geo wc)
unfolding count_response
count_response-IsValidWorker geo wc w = (w.0, bump-UniqueKeys _ 1 wc.responses w.1, w.2, w.3, w.4)

pub sweep_shard-IsValidShard :
    (ts : ℕ) (sh : Shard) → IsValidShard sh → IsValidShard (sweep_shard ts sh)
unfolding sweep_shard
sweep_shard-IsValidShard ts sh w = (
  omega (arith, length-delete_where-le {0, 0} {K = GoString} (is_stale ts) sh.pending),
  delete_where-UniqueKeys (is_stale ts) sh.pending w.1,
  w.2,
)

insert-IsValidShard :
    (pk : GoString) (ts : ℕ) (sh : Shard)
    → IsValidShard sh
    → (lookup pk sh.pending ≡ none → length sh.pending < pending_max)
    → IsValidShard (record sh { pending = insert pk ts sh.pending })
insert-IsValidShard pk ts sh w room = (
  (elim (Option-cases (lookup pk sh.pending)) [
    | inl new_key ↦ rw (length-insert_new pk ts sh.pending new_key) (omega (arith, room new_key))
    | inr (old, e) ↦ rw (length-insert_old pk ts sh.pending old e) w.0
  ]),
  insert-UniqueKeys pk ts sh.pending w.1,
  w.2,
)

delete-IsValidShard :
    (pk : GoString) (sh : Shard)
    → IsValidShard sh
    → IsValidShard (record sh { pending = delete pk sh.pending })
delete-IsValidShard pk sh w =
    (omega (arith, length-delete-le {0, 0} pk sh.pending), delete-UniqueKeys pk sh.pending w.1, w.2)

module _ (F : Type 0) where
  pub touch-IsValidShard :
      (ip : GoString) (now : ℕ) (sh : Shard)
      → IsValidShard sh
      → IsValidShard (touch {F = F} ip now sh).0
  unfolding touch
  touch-IsValidShard ip now sh w = (w.0, w.1, insert-UniqueKeys ip now sh.active w.2)

  pub remember-IsValidShard :
      (ip : GoString) (xid : Option (List ℕ)) (ts : ℕ) (sh : Shard)
      → IsValidShard sh
      → IsValidShard (remember {F = F} ip xid ts sh).0
  unfolding remember
  remember-IsValidShard ip none ts sh w = w
  remember-IsValidShard ip (some xid) ts sh w =
      let pk = pending_key ip xid in
      elim (Option-cases (lookup pk sh.pending)) [
        | inr (old, e) ↦ rw e (insert-IsValidShard pk ts sh w (λ h. cc))
        | inl e ↦ elim (Bool-cases (leb pending_max (length sh.pending))) [
          | inl full ↦ rw (e, full) w
          | inr room ↦ rw (e, room) (insert-IsValidShard pk ts sh w (λ h. ground arith))
        ]
      ]

  pub pair-IsValidShard :
      (ip : GoString) (xid : Option (List ℕ)) (ts : ℕ) (sh : Shard)
      → IsValidShard sh
      → IsValidShard (pair {F = F} ip xid ts sh).0
  unfolding pair
  pair-IsValidShard ip none ts sh w = w
  pair-IsValidShard ip (some xid) ts sh w =
      elim (Option-cases (lookup (pending_key ip xid) sh.pending)) [
        | inl e ↦ rw (pair, e) w
        | inr (old, e) ↦ rw (pair, e) (delete-IsValidShard (pending_key ip xid) sh w)
      ]
