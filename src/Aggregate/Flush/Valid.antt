-- ===== src/Aggregate/Flush/Valid.antt =====
-- `Flush` of exporter/internal/aggregate/aggregate.go keeps the collector valid and does not panic.
use mathlib.Core.Logic.{∥∥₁_elim}
use mathlib.Core.List.{Permᴰ}
use mathlib.Core.List.Permᴰ
use ntp_server.Base.{
  ℕ, ◌+◌, ◌≤◌, ◌≡◌, ◌∙◌, sym, refl, ap, Bool, true, inl, inr, none, List, [], ◌∷◌, ◌++◌, map, arith,
  length, length-map, take-length, All, ltb, Bool-cases, nat_eq, string_eq, Returns,
}
use ntp_server.Base.GoMap.{GoMap, lookup, UniqueKeys, delete_where-UniqueKeys}
use ntp_server.Base.Counters.{bump-UniqueKeys}
use ntp_server.Hll.{HyperLogLog, Floats, new_default, clone, count}
use ntp_server.Hll.Bounds.{merge-zip_max, zip_max-IsSketch}
use ntp_server.Aggregate.{
  Collector, Shard, AsnKey, Event, asn_key_eq, asn_totals_max, new_worker_counters, active_window,
  clients_active, clients_unique_daily,
}
use ntp_server.Aggregate.Asn.{Kv}
use ntp_server.Base.Order.{Sorts}
use ntp_server.Aggregate.Ranking.{prune_to_largest-IsBest}
use ntp_server.Aggregate.Handle.{sweep_shard}
use ntp_server.Aggregate.Hours.{hour_of}
use ntp_server.Aggregate.Valid.{
  IsValidWorker, IsValidShard, IsHourly, sweep_shard-IsValidShard, new_default-IsHourly,
}
use ntp_server.Aggregate.Rotate.{current_bucket-Rotated}
use ntp_server.Aggregate.Keeps.{IsValidOf}
use ntp_server.Aggregate.Flush.{
  FlushReading, snapshot, add_asn_totals, new_asn_totals, evict_shard, merge_all, flush_maps, flush,
  publish, read_drops, active_count,
}

All-map {ℓ} :
    {A : Type ℓ} (P : A → Type 0) (f : A → A) (xs : List A)
    → ((x : A) → P x → P (f x))
    → All P xs
    → All P (map f xs)
All-map P f [] step h = tt
All-map P f (x ∷ xs) step h = (step x h.0, All-map P f xs step h.1)

pub evict_shard-IsValidShard :
    (clock : ℕ) (sh : Shard) → IsValidShard sh → IsValidShard (evict_shard clock sh)
unfolding evict_shard
evict_shard-IsValidShard clock sh w =
    (w.0, w.1, delete_where-UniqueKeys (λ seen. ltb (seen + active_window) clock) sh.active w.2)

lookup-none-Permᴰ :
    (j : ℕ) {xs ys : GoMap ℕ ℕ} → Permᴰ xs ys → lookup j xs ≡ none → lookup j ys ≡ none
unfolding lookup
lookup-none-Permᴰ j Permᴰ.nil h = h
lookup-none-Permᴰ j (Permᴰ.cons e d) h = ground (arith, lookup-none-Permᴰ j d)
lookup-none-Permᴰ j (Permᴰ.swap e f) h = ground arith
lookup-none-Permᴰ j (Permᴰ.trans d f) h = lookup-none-Permᴰ j f (lookup-none-Permᴰ j d h)

UniqueKeys-Permᴰ : {xs ys : GoMap ℕ ℕ} → Permᴰ xs ys → UniqueKeys xs → UniqueKeys ys
unfolding lookup
UniqueKeys-Permᴰ Permᴰ.nil u = u
UniqueKeys-Permᴰ (Permᴰ.cons {l₂ = l₂} e d) u =
    (ap (λ (b : ℕ × ℕ). lookup b.0 l₂) (sym e) ∙ lookup-none-Permᴰ _ d u.0, UniqueKeys-Permᴰ d u.1)
UniqueKeys-Permᴰ (Permᴰ.swap e f) u = (ground arith, (ground arith, u.1.1))
UniqueKeys-Permᴰ (Permᴰ.trans d f) u = UniqueKeys-Permᴰ f (UniqueKeys-Permᴰ d u)

UniqueKeys-prop : (xs : GoMap ℕ ℕ) → IsProp (UniqueKeys xs)
UniqueKeys-prop [] = hlevel
UniqueKeys-prop (x ∷ xs) = hlevel (UniqueKeys-prop xs)

lookup_append : (j : ℕ) (xs ys : GoMap ℕ ℕ) → lookup j (xs ++ ys) ≡ none → lookup j xs ≡ none
unfolding lookup
lookup_append j [] ys h = refl
lookup_append j (x ∷ xs) ys h = ground (arith, lookup_append j xs ys)

UniqueKeys-append : (xs ys : GoMap ℕ ℕ) → UniqueKeys (xs ++ ys) → UniqueKeys xs
unfolding lookup
UniqueKeys-append [] ys u = tt
UniqueKeys-append (x ∷ xs) ys u = (lookup_append x.0 xs ys u.0, UniqueKeys-append xs ys u.1)

-- the totals stay a map with at most `asn_totals_max` entries
add_asn_totals-UniqueKeys :
    (m : GoMap AsnKey ℕ) (totals : GoMap ℕ ℕ)
    → UniqueKeys totals
    → UniqueKeys (add_asn_totals totals m)
unfolding add_asn_totals
add_asn_totals-UniqueKeys [] totals u = u
add_asn_totals-UniqueKeys ((k, n) ∷ m) totals u = elim (Bool-cases k.has_asn) [
  | inl has ↦ rw has (add_asn_totals-UniqueKeys m _ (bump-UniqueKeys k.asn n totals u))
  | inr other ↦ rw other (add_asn_totals-UniqueKeys m totals u)
]

clone_lem : (s : HyperLogLog) → clone s ≡ s
unfolding clone
clone_lem s = rw take-length refl

pub merge_all-IsHourly :
    (ss : List HyperLogLog) {h : HyperLogLog}
    → IsHourly h
    → All IsHourly ss
    → Returns (merge_all h (map clone ss)) IsHourly
unfolding merge_all
merge_all-IsHourly [] {h} w v = (h, refl, w)
merge_all-IsHourly (s ∷ ss) w v =
    let e = w.1 ∙ sym v.0.1 in
    let (r, run, t) = merge_all-IsHourly ss (zip_max-IsSketch w.0 v.0.0 e, w.1) v.1 in
    (r, rw (clone_lem s, merge-zip_max w.0 v.0.0 e) run, t)

module _ (sort : (Kv → Kv → Bool) → List Kv → List Kv) (sorts : Sorts sort) where
  pub new_asn_totals_lem :
      (totals : GoMap ℕ ℕ) (m : GoMap AsnKey ℕ)
      → UniqueKeys totals
      → UniqueKeys (new_asn_totals sort totals m)
        × (length (new_asn_totals sort totals m) ≤ asn_totals_max)
  unfolding new_asn_totals
  new_asn_totals_lem totals m u =
      let all = add_asn_totals totals m in
      let unique = add_asn_totals-UniqueKeys m totals u in
      let best = prune_to_largest-IsBest sort sorts all asn_totals_max in
      elim (Bool-cases (ltb asn_totals_max (length all))) [
        | inl big ↦ rw big (
          UniqueKeys-append _ best.left (
              ∥∥₁_elim best.perm (UniqueKeys-prop _) (λ d. UniqueKeys-Permᴰ (Permᴰ.symm d) unique)),
          omega (arith, best.count),
        )
        | inr small ↦ rw small (unique, ground arith)
      ]

  pub flush_maps-IsValid :
      (r : FlushReading) {n : ℕ} {c : Collector} → IsValidOf n c → IsValidOf n (flush_maps sort r c)
  unfolding flush_maps
  flush_maps-IsValid r {n} {c} (w, l) =
      let totals =
        new_asn_totals_lem c.asn_totals (snapshot new_worker_counters c.workers).asn_requests
          w.asn_totals in
      (
        record {
          workers = All-map IsValidWorker _ c.workers (λ wc v. (tt, tt, tt, tt, tt)) w.workers;
          shards = All-map IsValidShard (sweep_shard r.wall) _ (sweep_shard-IsValidShard r.wall) (
              All-map IsValidShard (evict_shard r.clock) c.shards (evict_shard-IsValidShard r.clock)
                w.shards);
          num_shards =
              length-map (sweep_shard r.wall) _
              ∙ length-map (evict_shard r.clock) c.shards
              ∙ w.num_shards;
          sweeping = w.sweeping;
          asn_totals = totals.0;
          hourly = w.hourly;
          hours = w.hours;
          hour = w.hour;
        },
        length-map _ c.workers ∙ l,
      )

  -- the sketches that the flush merges, and the calls on the metrics that it makes
  abbrev pub flush_events :
      {F : Type 0} → Floats F → FlushReading → Collector → HyperLogLog → List (Event F)
  flush_events fl r c merged =
      (read_drops r.drops r.last_drops).1
      ++ publish sort c.asn_top_n (flush_maps sort r c).asn_totals
          (snapshot new_worker_counters c.workers)
      ++ (clients_active (active_count (map (evict_shard r.clock) c.shards))
          ∷ clients_unique_daily (count fl merged)
          ∷ [])

  pub flush_lem :
      {F : Type 0} (fl : Floats F) (r : FlushReading) {n : ℕ} {c : Collector}
      → IsValidOf n c
      → Returns (flush sort fl r c) λ u.
        IsValidOf n u.0
        × (u.0 ≡ record (flush_maps sort r c) {
          hourly = u.0.hourly;
          hour = hour_of r.wall_later;
          hour_set = true;
        })
        × Returns (merge_all new_default (map clone u.0.hourly)) λ merged.
          (u.2 ≡ flush_events fl r c merged) × (u.1 ≡ (read_drops {F = F} r.drops r.last_drops).0)
  unfolding flush
  flush_lem {F} fl r {n} {c} v =
      let (w, l) = flush_maps-IsValid r v in
      let (b, run, (vb, e, reads)) = current_bucket-Rotated r.wall_later w in
      let (h, merged, t) = merge_all-IsHourly b.hourly new_default-IsHourly vb.hourly in
      (
        (b, (read_drops {F = F} r.drops r.last_drops).0, flush_events fl r c h),
        rw (run, merged),
        ((vb, ap (λ (d : Collector). length d.workers) e ∙ l), e, (h, merged, (refl, refl))),
      )

  -- `Flush` on a valid collector, whatever the readings, does not panic and keeps the collector
  -- valid; at most `asn_totals_max` cumulative ASN totals are left.
  pub flush-IsValid :
      {F : Type 0} (fl : Floats F) (r : FlushReading) {n : ℕ} {c : Collector}
      → IsValidOf n c
      → Returns (flush sort fl r c) λ u. IsValidOf n u.0 × (length u.0.asn_totals ≤ asn_totals_max)
  unfolding flush_maps
  flush-IsValid fl r {n} {c} v =
      let (u, run, (w, e, m)) = flush_lem fl r v in
      let totals =
        new_asn_totals_lem c.asn_totals (snapshot new_worker_counters c.workers).asn_requests
          v.0.asn_totals in
      (u, run, (w, rw e totals.1))
