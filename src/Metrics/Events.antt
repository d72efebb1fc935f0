-- ===== src/Metrics/Events.antt =====
-- The labels of the events that exporter/internal/aggregate/aggregate.go publishes.
use ntp_server.Base.{
  ℕ, inl, inr, Bool, true, false, Option, none, some, List, [], ◌∷◌, All, All-append, GoString,
  ◌==◌, string_eq, Option-cases, if◌then◌else◌, ltb, leb, arith, ◌-◌,
}
use ntp_server.Base.GoMap.{GoMap, lookup}
use ntp_server.Base.Counters.{value}
use ntp_server.Frame.{request}
use ntp_server.Frame.Safety.{IsVersion}
use ntp_server.Aggregate.{
  WorkerCounters, Shard, CountryKey, AsnKey, Event, country_key_eq, kernel_drops, client_drops,
}
use ntp_server.Aggregate.Asn.{Kv, top_n_asns}
use ntp_server.Aggregate.Handle.{Frame, Reading, touch, remember, pair}
use ntp_server.Aggregate.Invariant.{request_events}
use ntp_server.Aggregate.Flush.{
  read_drops, publish, publish_requests, publish_asns, publish_versions, publish_families,
}
use ntp_server.Aggregate.Flush.Steps.{later_events}
use ntp_server.Metrics.Keys.{IsFamily, Keys, HasLabels}
use ntp_server.Metrics.Fitting.{Labelled}

module _ (F : Type 0) where
  abbrev pub AllLabelled : List (Event F) → Type 0
  AllLabelled es = All Labelled es

  if-AllLabelled :
      (b : Bool) (es ds : List (Event F))
      → AllLabelled es
      → AllLabelled ds
      → AllLabelled (if b then es else ds)
  if-AllLabelled true es ds all all' = all
  if-AllLabelled false es ds all all' = all'

  touch-AllLabelled : (ip : GoString) (now : ℕ) (sh : Shard) → AllLabelled (touch ip now sh).1
  unfolding touch
  touch-AllLabelled ip now sh = elim (Option-cases (lookup ip sh.active)) [
    | inl e ↦ rw (touch, e) tt
    | inr (prev, e) ↦ rw (touch, e) (tt, tt)
  ]

  remember-AllLabelled :
      (ip : GoString) (xid : Option (List ℕ)) (ts : ℕ) (sh : Shard)
      → AllLabelled (remember ip xid ts sh).1
  unfolding remember
  remember-AllLabelled ip xid ts sh = ground arith

  pair-AllLabelled :
      (ip : GoString) (xid : Option (List ℕ)) (ts : ℕ) (sh : Shard)
      → AllLabelled (pair ip xid ts sh).1
  unfolding pair
  pair-AllLabelled ip xid ts sh = ground arith

  pub later_events-AllLabelled :
      (sha1 : List ℕ → List ℕ) (r : Reading) (f : Frame) (sh : Shard)
      → AllLabelled (later_events F sha1 r f sh)
  later_events-AllLabelled sha1 r f sh =
      if-AllLabelled (f.direction == request) (request_events F sha1 r f sh) _
        (All-append Labelled (touch f.ip r.clock sh).1 _ (touch-AllLabelled f.ip r.clock sh)
          (remember-AllLabelled f.ip f.xid f.ts _))
        (pair-AllLabelled f.ip f.xid f.ts sh)

  pub read_drops-AllLabelled : (cur last : Option ℕ) → AllLabelled (read_drops cur last).1
  unfolding read_drops
  read_drops-AllLabelled none last = tt
  read_drops-AllLabelled (some cur) none = tt
  read_drops-AllLabelled (some cur) (some last) =
      if-AllLabelled (leb last cur) _ []
        (if-AllLabelled (ltb 0 (cur - last)) (kernel_drops (cur - last) ∷ []) [] (tt, tt) tt) tt

  publish_requests-AllLabelled :
      (responses requests : GoMap CountryKey ℕ) → AllLabelled (publish_requests responses requests)
  unfolding publish_requests
  publish_requests-AllLabelled responses [] = tt
  publish_requests-AllLabelled responses ((k, n) ∷ m) =
      let rest = publish_requests-AllLabelled responses m in
      (
        tt,
        if-AllLabelled (ltb (value k responses) n)
            (client_drops k.country k.continent (n - value k responses)
              ∷ publish_requests responses m)
            (publish_requests responses m) (tt, rest) rest,
      )

  publish_asns-AllLabelled : (top : List ℕ) (m : GoMap AsnKey ℕ) → AllLabelled (publish_asns top m)
  unfolding publish_asns
  publish_asns-AllLabelled top [] = tt
  publish_asns-AllLabelled top ((k, n) ∷ m) = (tt, publish_asns-AllLabelled top m)

  publish_versions-AllLabelled :
      (m : GoMap GoString ℕ) → Keys IsVersion m → AllLabelled (publish_versions m)
  unfolding publish_versions
  publish_versions-AllLabelled [] all = tt
  publish_versions-AllLabelled ((v, n) ∷ m) all = (all.0, publish_versions-AllLabelled m all.1)

  publish_families-AllLabelled :
      (m : GoMap GoString ℕ) → Keys IsFamily m → AllLabelled (publish_families m)
  unfolding publish_families
  publish_families-AllLabelled [] all = tt
  publish_families-AllLabelled ((a, n) ∷ m) all = (all.0, publish_families-AllLabelled m all.1)

  pub publish-AllLabelled :
      (sort : (Kv → Kv → Bool) → List Kv → List Kv) (n : ℕ) (totals : GoMap ℕ ℕ)
      (snap : WorkerCounters)
      → HasLabels snap
      → AllLabelled (publish sort n totals snap)
  unfolding publish
  publish-AllLabelled sort n totals snap all =
      let top = top_n_asns sort totals n in
      All-append Labelled _ (publish_families snap.family_requests)
        (All-append Labelled _ (publish_versions snap.version_requests)
          (All-append Labelled (publish_requests snap.responses snap.requests)
            (publish_asns top snap.asn_requests)
            (publish_requests-AllLabelled snap.responses snap.requests)
            (publish_asns-AllLabelled top snap.asn_requests))
          (publish_versions-AllLabelled snap.version_requests all.0))
        (publish_families-AllLabelled snap.family_requests all.1)
