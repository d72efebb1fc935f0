-- ===== src/Aggregate/Flush/Countries.antt =====
-- The requests and the drops of one country that `Flush` of
-- exporter/internal/aggregate/aggregate.go publishes.
use ntp_server.Base.{
  ℕ, ◌+◌, ◌-◌, ◌≡◌, refl, Bool, inl, inr, Option, none, some, List, [], ◌∷◌, ◌++◌, arith, map, All,
  if◌then◌else◌, Bool-cases, ◌==◌, GoString, nat_eq, string_eq, Returns,
}
use ntp_server.Base.GoMap.{GoMap, lookup, UniqueKeys}
use ntp_server.Base.Counters.{value, at_key, at_key-value, value-merge_into, merge_into-UniqueKeys}
use ntp_server.Hll.{Floats, count}
use ntp_server.Aggregate.{
  Collector, WorkerCounters, CountryKey, AsnKey, Event, country_key_eq, country_key_eqb_iff,
  asn_key_eq, new_worker_counters, client_requests, client_drops, clients_active,
  clients_unique_daily,
}
use ntp_server.Aggregate.Asn.{Kv, top_n_asns}
use ntp_server.Base.Order.{Sorts}
use ntp_server.Aggregate.Valid.{IsValidWorker}
use ntp_server.Aggregate.Keeps.{IsValidOf}
use ntp_server.Aggregate.Flush.{
  FlushReading, flush, merge_worker, snapshot, read_drops, publish_requests, publish_asns,
  publish_versions, publish_families, publish, flush_maps, active_count, evict_shard,
}
use ntp_server.Aggregate.Flush.Valid.{flush_lem}

-- the requests, and the responses, that the workers have counted for a country
unfoldable pub requests_of : CountryKey → List WorkerCounters → ℕ
requests_of k [] = 0
requests_of k (wc ∷ workers) = value k wc.requests + requests_of k workers

unfoldable pub responses_of : CountryKey → List WorkerCounters → ℕ
responses_of k [] = 0
responses_of k (wc ∷ workers) = value k wc.responses + responses_of k workers

-- what the calls on the metrics add to the requests, and to the drops, of a country
unfoldable pub requested : {F : Type 0} → CountryKey → List (Event F) → ℕ
requested k [] = 0
requested k (client_requests country continent n ∷ es) =
    (if (record { country = country; continent = continent }) == k then n else 0) + requested k es
requested k (e ∷ es) = requested k es

unfoldable pub dropped : {F : Type 0} → CountryKey → List (Event F) → ℕ
dropped k [] = 0
dropped k (client_drops country continent n ∷ es) =
    (if (record { country = country; continent = continent }) == k then n else 0) + dropped k es
dropped k (e ∷ es) = dropped k es

module _ (F : Type 0) (k : CountryKey) where
  requested-append :
      (es ds : List (Event F)) → requested k (es ++ ds) ≡ requested k es + requested k ds
  unfolding requested
  requested-append [] ds = omega arith
  requested-append (e ∷ es) ds = ground (arith, requested-append es ds)

  dropped-append : (es ds : List (Event F)) → dropped k (es ++ ds) ≡ dropped k es + dropped k ds
  unfolding dropped
  dropped-append [] ds = omega arith
  dropped-append (e ∷ es) ds = ground (arith, dropped-append es ds)

  requested-publish :
      (responses m : GoMap CountryKey ℕ)
      → requested k (publish_requests {F = F} responses m) ≡ at_key k m
  unfolding requested publish_requests at_key
  requested-publish responses [] = refl
  requested-publish responses ((j, n) ∷ m) = ground (arith, requested-publish responses m)

  dropped_absent :
      (responses m : GoMap CountryKey ℕ)
      → lookup k m ≡ none
      → dropped k (publish_requests {F = F} responses m) ≡ 0
  unfolding dropped publish_requests lookup
  dropped_absent responses [] h = refl
  dropped_absent responses ((j, n) ∷ m) h = ground (arith, dropped_absent responses m)

  dropped-publish :
      (responses m : GoMap CountryKey ℕ)
      → UniqueKeys m
      → dropped k (publish_requests {F = F} responses m) ≡ value k m - value k responses
  unfolding dropped publish_requests lookup value
  dropped-publish responses [] u = omega arith
  dropped-publish responses ((j, n) ∷ m) u = elim (Bool-cases (j == k)) [
    | inl same ↦
        let e : j ≡ k = (country_key_eqb_iff j k).0 same in
        let gone : lookup k m ≡ none = rw (← e) u.0 in
        ground (arith, dropped_absent responses m gone)
    | inr other ↦ ground (arith, dropped-publish responses m u.1)
  ]

  -- the other calls on the metrics say nothing of a country
  unfoldable Silent : List (Event F) → Type 0
  Silent es = (requested k es ≡ 0) × (dropped k es ≡ 0)

  Silent-append : (es ds : List (Event F)) → Silent es → Silent ds → Silent (es ++ ds)
  unfolding Silent
  Silent-append es ds a b = (
    omega (arith, requested-append es ds, a.0, b.0),
    omega (arith, dropped-append es ds, a.1, b.1),
  )

  publish_asns-Silent : (top : List ℕ) (m : GoMap AsnKey ℕ) → Silent (publish_asns top m)
  unfolding Silent publish_asns requested dropped
  publish_asns-Silent top [] = (refl, refl)
  publish_asns-Silent top ((j, n) ∷ m) = publish_asns-Silent top m

  publish_versions-Silent : (m : GoMap GoString ℕ) → Silent (publish_versions m)
  unfolding Silent publish_versions requested dropped
  publish_versions-Silent [] = (refl, refl)
  publish_versions-Silent ((v, n) ∷ m) = publish_versions-Silent m

  publish_families-Silent : (m : GoMap GoString ℕ) → Silent (publish_families m)
  unfolding Silent publish_families requested dropped
  publish_families-Silent [] = (refl, refl)
  publish_families-Silent ((f, n) ∷ m) = publish_families-Silent m

  read_drops-Silent : (drops last : Option ℕ) → Silent (read_drops drops last).1
  unfolding Silent read_drops requested dropped
  read_drops-Silent none last = (refl, refl)
  read_drops-Silent (some cur) none = (refl, refl)
  read_drops-Silent (some cur) (some last) = (ground arith, ground arith)

  gauges-Silent : (n : ℕ) (x : F) → Silent (clients_active n ∷ clients_unique_daily x ∷ [])
  unfolding Silent requested dropped
  gauges-Silent n x = (refl, refl)

  publish-countries :
      (sort : (Kv → Kv → Bool) → List Kv → List Kv) (asn_top_n : ℕ) (totals : GoMap ℕ ℕ)
      (snap : WorkerCounters)
      → UniqueKeys snap.requests
      → (requested k (publish sort {F = F} asn_top_n totals snap) ≡ value k snap.requests)
        × (dropped k (publish sort {F = F} asn_top_n totals snap)
            ≡ value k snap.requests - value k snap.responses)
  unfolding publish Silent
  publish-countries sort asn_top_n totals snap u =
      let a = publish_asns-Silent (top_n_asns sort totals asn_top_n) snap.asn_requests in
      let b = publish_versions-Silent snap.version_requests in
      let c = publish_families-Silent snap.family_requests in
      (
        rw
            (
              requested-append,
              requested-append,
              requested-append,
              a.0,
              b.0,
              c.0,
              requested-publish,
              at_key-value k snap.requests u,
            )
            (omega arith),
        rw
            (
              dropped-append,
              dropped-append,
              dropped-append,
              a.1,
              b.1,
              c.1,
              dropped-publish snap.responses snap.requests u,
            )
            (omega arith),
      )

  -- the snapshot of a country
  snapshot_lem :
      (workers : List WorkerCounters) (acc : WorkerCounters)
      → UniqueKeys acc.requests
      → All IsValidWorker workers
      → UniqueKeys (snapshot acc workers).requests
        × (value k (snapshot acc workers).requests ≡ value k acc.requests + requests_of k workers)
        × (value k (snapshot acc workers).responses
            ≡ value k acc.responses + responses_of k workers)
  unfolding snapshot merge_worker requests_of responses_of
  snapshot_lem [] acc u v = (u, omega arith, omega arith)
  snapshot_lem (wc ∷ workers) acc u v =
      let rest =
        snapshot_lem workers (merge_worker acc wc)
          (merge_into-UniqueKeys acc.requests wc.requests u) v.1 in
      (
        rest.0,
        omega (
          arith,
          rest.1,
          value-merge_into k acc.requests wc.requests,
          at_key-value k wc.requests v.0.0,
        ),
        omega (
          arith,
          rest.2,
          value-merge_into k acc.responses wc.responses,
          at_key-value k wc.responses v.0.1,
        ),
      )

  module _ (fl : Floats F) (sort : (Kv → Kv → Bool) → List Kv → List Kv) (sorts : Sorts sort) where
    -- `Flush` on a valid collector publishes for a country the requests that all workers have
    -- counted for it since the last flush, and as its drops the requests less the responses, none
    -- if there are more responses.
    pub flush-countries :
        (r : FlushReading) {n : ℕ} {c : Collector}
        → IsValidOf n c
        → Returns (flush sort fl r c) λ u.
          (requested k u.2 ≡ requests_of k c.workers)
          × (dropped k u.2 ≡ requests_of k c.workers - responses_of k c.workers)
    unfolding Silent value lookup
    flush-countries r {n} {c} v =
        let (u, run, (w, e, (h, merged, (events, same)))) = flush_lem sort sorts fl r v in
        let (unique, asked, answered) = snapshot_lem c.workers new_worker_counters tt v.0.workers in
        let a = read_drops-Silent r.drops r.last_drops in
        let (req, drops) =
          publish-countries sort c.asn_top_n (flush_maps sort r c).asn_totals
            (snapshot new_worker_counters c.workers) unique in
        (
          u,
          run,
          (
            rw
                (
                  events,
                  requested-append,
                  requested-append,
                  a.0,
                  req,
                  (gauges-Silent (active_count (map (evict_shard r.clock) c.shards))
                      (count fl h)).0,
                )
                (omega arith),
            rw
                (
                  events,
                  dropped-append,
                  dropped-append,
                  a.1,
                  drops,
                  (gauges-Silent (active_count (map (evict_shard r.clock) c.shards))
                      (count fl h)).1,
                )
                (omega arith),
          ),
        )
