-- ===== src/Aggregate/Threads/StepsFlush.antt =====
-- One step of a goroutine in `Flush` of exporter/internal/aggregate/aggregate.go: it does not
-- panic, and publishes what it holds.
use ntp_server.Base.{
  ℕ, ◌+◌, refl, ap, inr, Bool, List, [], ◌∷◌, arith, length, set, if◌then◌else◌, ltb, string_eq,
}
use ntp_server.Hll.{Floats, count}
use ntp_server.Base.Order.{Sorts}
use ntp_server.Aggregate.{
  Collector, WorkerCounters, clients_active, clients_unique_daily, new_worker_counters,
}
use ntp_server.Aggregate.Asn.{Kv}
use ntp_server.Aggregate.Handle.{sweep_shard}
use ntp_server.Aggregate.Valid.{IsValidShard, new_default-IsHourly, sweep_shard-IsValidShard}
use ntp_server.Base.{get_elem?-lt, All-get}
use ntp_server.Aggregate.Flush.{FlushReading, evict_shard, merge_worker, new_asn_totals}
use ntp_server.Aggregate.Flush.Valid.{
  evict_shard-IsValidShard, new_asn_totals_lem, merge_all-IsHourly,
}
use ntp_server.Aggregate.Flush.Ledger.{
  posted, posted-append, posted-read_drops, posted-publish, waiting-set, waits-merge_worker,
  waits-new,
}
use ntp_server.Aggregate.Threads.{
  idle, merging, totalling, evicting, expiring, rotating, next_of, step,
}
use ntp_server.Aggregate.Threads.Settled.{
  IsSettled, current_bucket-IsSettled, IsSettled-worker, IsSettled-shard, IsSettled-asn_totals,
}
use ntp_server.Aggregate.Threads.Places.{
  IsPlaced, next_of-IsPlaced, next_of-held, with_shard-IsSettled, worker-IsSettled,
}
use ntp_server.Aggregate.Threads.Kept.{Goes, posted-last, posted-gauge}

module _ {F : Type 0} (sha1 : List ℕ → List ℕ) (fl : Floats F)
    (sort : (Kv → Kv → Bool) → List Kv → List Kv) (sorts : Sorts sort) (n : ℕ) (c : Collector)
    (w : IsSettled n c) where
  pub merging-Keeps :
      (r : FlushReading) (i : ℕ) (snap : WorkerCounters)
      → IsPlaced n (merging r i snap)
      → Goes sha1 fl sort n c w (merging r i snap)
  unfolding step posted
  merging-Keeps r i snap p =
      let (wc, found, valid) = worker-IsSettled c i w p in
      let all = merge_worker snap wc in
      (
        (
          next_of i (length c.workers) (λ j. merging r j all) (totalling r all),
          record c { workers = set c.workers i new_worker_counters },
          [],
        ),
        rw found refl,
        (
          next_of-IsPlaced n i (length c.workers) (λ j. merging r j all) (totalling r all)
              (λ h. omega (arith, w.1)) tt,
          IsSettled-worker c i new_worker_counters w (tt, tt, tt, tt, tt),
          λ s. omega (
            arith,
            next_of-held s i (length c.workers) (λ j. merging r j all) (totalling r all) refl,
            waiting-set s c.workers i wc new_worker_counters found,
            waits-new s,
            waits-merge_worker s snap wc,
          ),
          inr (inr (refl, λ h. h)),
        ),
      )

  pub totalling-Keeps :
      (r : FlushReading) (snap : WorkerCounters)
      → IsPlaced n (totalling r snap)
      → Goes sha1 fl sort n c w (totalling r snap)
  unfolding step posted
  totalling-Keeps r snap p =
      let totals = new_asn_totals sort c.asn_totals snap.asn_requests in
      (
        _,
        refl,
        (
          omega arith,
          IsSettled-asn_totals c totals w
              (new_asn_totals_lem sort sorts c.asn_totals snap.asn_requests w.0.asn_totals).0,
          λ s.
              rw
                (
                  posted-append,
                  posted-read_drops F s,
                  posted-publish F sort s c.asn_top_n totals snap,
                )
                (omega arith),
          inr (inr (refl, λ h. h)),
        ),
      )

  pub evicting-Keeps :
      (r : FlushReading) (i active : ℕ)
      → IsPlaced n (evicting r i active)
      → Goes sha1 fl sort n c w (evicting r i active)
  unfolding step posted
  evicting-Keeps r i active p =
      let (sh, found) = get_elem?-lt c.shards i (omega (arith, w.0.num_shards)) in
      let valid = All-get IsValidShard c.shards i found w.0.shards in
      let total = active + length (evict_shard r.clock sh).active in
      (
        (
          next_of i (length c.shards) (λ j. evicting r j total) (expiring r 0),
          record c { shards = set c.shards i (evict_shard r.clock sh) },
          if ltb (i + 1) (length c.shards) then [] else clients_active total ∷ [],
        ),
        rw found refl,
        (
          next_of-IsPlaced n i (length c.shards) (λ j. evicting r j total) (expiring r 0)
              (λ h. omega (arith, w.0.num_shards)) (omega arith),
          IsSettled-shard c i (evict_shard r.clock sh) w
              (evict_shard-IsValidShard r.clock sh valid),
          λ s. omega (
            arith,
            next_of-held s i (length c.shards) (λ j. evicting r j total) (expiring r 0) refl,
            posted-last F s (ltb (i + 1) (length c.shards)) total,
          ),
          inr (inr (refl, λ h. h)),
        ),
      )

  pub expiring-Keeps :
      (r : FlushReading) (i : ℕ)
      → IsPlaced n (expiring r i)
      → Goes sha1 fl sort n c w (expiring r i)
  unfolding step posted
  expiring-Keeps r i p =
      let (sh, run, v) =
        with_shard-IsSettled {F = F} c i (λ sh. (sweep_shard r.wall sh, [])) w p
          (sweep_shard-IsValidShard r.wall) in
      (
        (
          next_of i (length c.shards) (expiring r) (rotating r),
          record c { shards = set c.shards i (sweep_shard r.wall sh) },
          [],
        ),
        rw run refl,
        (
          next_of-IsPlaced n i (length c.shards) (expiring r) (rotating r)
              (λ h. omega (arith, w.0.num_shards)) tt,
          v,
          λ s. omega (arith, next_of-held s i (length c.shards) (expiring r) (rotating r) refl),
          inr (inr (refl, λ h. h)),
        ),
      )

  pub rotating-Keeps :
      (r : FlushReading) → IsPlaced n (rotating r) → Goes sha1 fl sort n c w (rotating r)
  unfolding step posted
  rotating-Keeps r p =
      let (d, run, (v, e)) = current_bucket-IsSettled r.wall_later w in
      let (h, merged, t) = merge_all-IsHourly d.hourly new_default-IsHourly v.0.hourly in
      (
        (idle, d, clients_unique_daily (count fl h) ∷ []),
        rw (run, merged) refl,
        (
          tt,
          v,
          λ s. rw e (omega (arith, posted-gauge F s (count fl h))),
          inr (inr (ap (λ (d : Collector). d.frames_since_sweep) e, λ h. h)),
        ),
      )
