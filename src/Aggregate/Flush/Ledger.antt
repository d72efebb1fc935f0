-- ===== src/Aggregate/Flush/Ledger.antt =====
-- What `Flush` of exporter/internal/aggregate/aggregate.go publishes of the requests against what
-- the workers have counted since the last flush, in each of the four series of counters.
use ntp_server.Base.{
  ℕ, zero, suc, ◌+◌, ◌≡◌, refl, Bool, Option, none, some, List, [], ◌∷◌, ◌++◌, map, arith, set,
  get_elem?, GoString, nat_eq, string_eq, replicate,
}
use ntp_server.Base.GoMap.{GoMap}
use ntp_server.Base.Counters.{total, total-merge_into, total-bump}
use ntp_server.Aggregate.{
  WorkerCounters, CountryKey, AsnKey, Event, GeoResult, new_worker_counters, country_key_eq,
  asn_key_eq, client_requests, requests_by_asn, requests_by_version, requests_by_family,
}
use ntp_server.Aggregate.Asn.{Kv, top_n_asns}
use ntp_server.Aggregate.Handle.{count_request, count_response}
use ntp_server.Aggregate.Flush.{
  merge_worker, snapshot, read_drops, publish_requests, publish_asns, publish_versions,
  publish_families, publish,
}

-- the four series that count every request
pub data Series : Type 0 where
  by_country by_asn by_version by_family : Series

-- the requests that a worker has counted in a series since the last flush
unfoldable pub waits : Series → WorkerCounters → ℕ
waits by_country wc = total wc.requests
waits by_asn wc = total wc.asn_requests
waits by_version wc = total wc.version_requests
waits by_family wc = total wc.family_requests

unfoldable pub waiting : Series → List WorkerCounters → ℕ
waiting s [] = 0
waiting s (wc ∷ workers) = waits s wc + waiting s workers

-- what a call on the metrics adds to a series
unfoldable pub posts : {F : Type 0} → Series → Event F → ℕ
posts by_country (client_requests country continent n) = n
posts by_asn (requests_by_asn asn org n) = n
posts by_version (requests_by_version v n) = n
posts by_family (requests_by_family f n) = n
posts s e = 0

unfoldable pub posted : {F : Type 0} → Series → List (Event F) → ℕ
posted s [] = 0
posted s (e ∷ es) = posts s e + posted s es

pub waits-count_request :
    (s : Series) (geo : GeoResult) (version family : GoString) (wc : WorkerCounters)
    → waits s (count_request geo version family wc) ≡ waits s wc + 1
unfolding waits count_request
waits-count_request by_country geo version family wc = total-bump _ 1 wc.requests
waits-count_request by_asn geo version family wc = total-bump _ 1 wc.asn_requests
waits-count_request by_version geo version family wc = total-bump _ 1 wc.version_requests
waits-count_request by_family geo version family wc = total-bump _ 1 wc.family_requests

pub waits-count_response :
    (s : Series) (geo : GeoResult) (wc : WorkerCounters)
    → waits s (count_response geo wc) ≡ waits s wc
unfolding waits count_response
waits-count_response by_country geo wc = refl
waits-count_response by_asn geo wc = refl
waits-count_response by_version geo wc = refl
waits-count_response by_family geo wc = refl

pub waits-merge_worker :
    (s : Series) (acc wc : WorkerCounters)
    → waits s (merge_worker acc wc) ≡ waits s acc + waits s wc
unfolding waits merge_worker
waits-merge_worker by_country acc wc = total-merge_into acc.requests wc.requests
waits-merge_worker by_asn acc wc = total-merge_into acc.asn_requests wc.asn_requests
waits-merge_worker by_version acc wc = total-merge_into acc.version_requests wc.version_requests
waits-merge_worker by_family acc wc = total-merge_into acc.family_requests wc.family_requests

-- the snapshot holds what all workers have counted
pub waits-snapshot :
    (s : Series) (acc : WorkerCounters) (workers : List WorkerCounters)
    → waits s (snapshot acc workers) ≡ waits s acc + waiting s workers
unfolding snapshot waiting
waits-snapshot s acc [] = omega arith
waits-snapshot s acc (wc ∷ workers) =
    omega (arith, waits-snapshot s (merge_worker acc wc) workers, waits-merge_worker s acc wc)

pub waits-new : (s : Series) → waits s new_worker_counters ≡ 0
unfolding waits total
waits-new by_country = refl
waits-new by_asn = refl
waits-new by_version = refl
waits-new by_family = refl

pub waiting-reset :
    (s : Series) (workers : List WorkerCounters)
    → waiting s (map (λ wc. new_worker_counters) workers) ≡ 0
unfolding waiting
waiting-reset s [] = refl
waiting-reset s (wc ∷ workers) = omega (arith, waits-new s, waiting-reset s workers)

pub waiting-replicate : (s : Series) (n : ℕ) → waiting s (replicate n new_worker_counters) ≡ 0
unfolding waiting replicate
waiting-replicate s zero = refl
waiting-replicate s (suc n) = omega (arith, waits-new s, waiting-replicate s n)

-- one worker's counters are replaced
pub waiting-set :
    (s : Series) (workers : List WorkerCounters) (i : ℕ) (old wc : WorkerCounters)
    → get_elem? workers i ≡ some old
    → waiting s (set workers i wc) + waits s old ≡ waiting s workers + waits s wc
unfolding waiting
waiting-set s [] i old wc h = cc
waiting-set s (x ∷ workers) zero old wc h = let e : x ≡ old = ground arith in rw e (omega arith)
waiting-set s (x ∷ workers) (suc i) old wc h = omega (arith, waiting-set s workers i old wc h)

module _ {F : Type 0} where
  pub posted-append :
      (s : Series) (es ds : List (Event F)) → posted s (es ++ ds) ≡ posted s es + posted s ds
  unfolding posted
  posted-append s [] ds = omega arith
  posted-append s (e ∷ es) ds = omega (arith, posted-append s es ds)

module _ (F : Type 0) where
  pub posted-read_drops :
      (s : Series) (drops last : Option ℕ) → posted s (read_drops {F = F} drops last).1 ≡ 0
  unfolding read_drops posted posts
  posted-read_drops s none last = refl
  posted-read_drops s (some cur) none = refl
  posted-read_drops s (some cur) (some last) = ground arith

  posted-requests :
      (s : Series) (responses m : GoMap CountryKey ℕ)
      → posted s (publish_requests {F = F} responses m) ≡ elim s [ by_country ↦ total m | _ ↦ 0 ]
  unfolding publish_requests posted posts total
  posted-requests s responses [] = ground arith
  posted-requests s responses ((k, n) ∷ m) = ground (arith, posted-requests s responses m)

  posted-asns :
      (s : Series) (top : List ℕ) (m : GoMap AsnKey ℕ)
      → posted s (publish_asns {F = F} top m) ≡ elim s [ by_asn ↦ total m | _ ↦ 0 ]
  unfolding publish_asns posted posts total
  posted-asns s top [] = ground arith
  posted-asns s top ((k, n) ∷ m) = ground (arith, posted-asns s top m)

  posted-versions :
      (s : Series) (m : GoMap GoString ℕ)
      → posted s (publish_versions {F = F} m) ≡ elim s [ by_version ↦ total m | _ ↦ 0 ]
  unfolding publish_versions posted posts total
  posted-versions s [] = ground arith
  posted-versions s ((v, n) ∷ m) = ground (arith, posted-versions s m)

  posted-families :
      (s : Series) (m : GoMap GoString ℕ)
      → posted s (publish_families {F = F} m) ≡ elim s [ by_family ↦ total m | _ ↦ 0 ]
  unfolding publish_families posted posts total
  posted-families s [] = ground arith
  posted-families s ((f, n) ∷ m) = ground (arith, posted-families s m)

  -- every series gets all that the snapshot holds of it, whatever ASNs are at the top
  pub posted-publish :
      (sort : (Kv → Kv → Bool) → List Kv → List Kv) (s : Series) (asn_top_n : ℕ)
      (totals : GoMap ℕ ℕ) (snap : WorkerCounters)
      → posted s (publish sort {F = F} asn_top_n totals snap) ≡ waits s snap
  unfolding publish waits
  posted-publish sort s asn_top_n totals snap =
      rw
        (
          posted-append,
          posted-append,
          posted-append,
          posted-requests s snap.responses snap.requests,
          posted-asns s (top_n_asns sort totals asn_top_n) snap.asn_requests,
          posted-versions s snap.version_requests,
          posted-families s snap.family_requests,
        )
        (ground arith)
