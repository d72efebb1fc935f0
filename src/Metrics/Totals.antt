-- ===== src/Metrics/Totals.antt =====
-- What the registry of exporter/internal/metrics/metrics.go shows of the requests once
-- exporter/internal/aggregate/aggregate.go has flushed them.
use ntp_server.Base.{
  ℕ, Bool, All-append, ◌+◌, ◌≡◌, refl, List, [], ◌∷◌, ◌++◌, map, All, arith, max, Returns, ◌==◌,
  string_eq, if◌then◌else◌, list_eqb,
}
use ntp_server.Base.Order.{Sorts}
use ntp_server.Hll.{Floats}
use ntp_server.Aggregate.{Collector, Event, new}
use ntp_server.Aggregate.Asn.{Kv}
use ntp_server.Aggregate.Keeps.{IsValidOf, new-IsValidOf}
use ntp_server.Aggregate.Flush.{FlushReading}
use ntp_server.Aggregate.Flush.Steps.{handle_frame-Counted}
use ntp_server.Aggregate.Flush.Ledger.{
  Series, by_country, by_asn, by_version, by_family, posts, posted, waiting,
}
use ntp_server.Aggregate.Flush.Total.{
  Call, frame, flushes, IsCall, requests_in, run_all, flush-posted, run_all-conserves,
}
use ntp_server.Metrics.{
  Metric, declared, ntp_client_requests_total, ntp_client_requests_by_asn_total,
  ntp_client_requests_by_version_total, ntp_client_requests_by_family_total,
}
use ntp_server.Metrics.Calls.{Action, increases, adds, MetricCall, call_of}

-- the vector of counters of a series
abbrev pub vector : Series → Metric
vector by_country = ntp_client_requests_total
vector by_asn = ntp_client_requests_by_asn_total
vector by_version = ntp_client_requests_by_version_total
vector by_family = ntp_client_requests_by_family_total

-- how much a call adds to a counter
abbrev amount : {F : Type 0} → Action F → ℕ
amount increases = 1
amount (adds n) = n
amount _ = 0

abbrev pub counts : {F : Type 0} → Metric → MetricCall F → ℕ
counts m c = if (declared m).name == (declared c.metric).name then amount c.action else 0

-- the sum of the counters of a vector after these calls
unfoldable pub shown : {F : Type 0} → Metric → List (MetricCall F) → ℕ
shown m [] = 0
shown m (c ∷ cs) = counts m c + shown m cs

counts-call_of : {F : Type 0} (s : Series) (e : Event F) → counts (vector s) (call_of e) ≡ posts s e
unfolding declared call_of posts list_eqb
counts-call_of s e = ground arith

shown-posted :
    {F : Type 0} (s : Series) (es : List (Event F))
    → shown (vector s) (map call_of es) ≡ posted s es
unfolding shown posted
shown-posted s [] = refl
shown-posted s (e ∷ es) = omega (arith, counts-call_of s e, shown-posted s es)

-- calls, and a flush after them
abbrev pub and_flush : List Call → FlushReading → List Call
and_flush calls r = calls ++ (flushes r ∷ [])

requests_in-and_flush :
    (calls : List Call) (r : FlushReading) → requests_in (and_flush calls r) ≡ requests_in calls
unfolding requests_in
requests_in-and_flush [] r = refl
requests_in-and_flush (frame q f ∷ calls) r = omega (arith, requests_in-and_flush calls r)
requests_in-and_flush (flushes q ∷ calls) r = requests_in-and_flush calls r

module _ (F : Type 0) (sha1 : List ℕ → List ℕ) (fl : Floats F)
    (sort : (Kv → Kv → Bool) → List Kv → List Kv) (sorts : Sorts sort) where
  -- nothing waits after the last flush
  run_all-flushed :
      (calls : List Call) (r : FlushReading) {n : ℕ} {c : Collector}
      → IsValidOf n c
      → All (IsCall n) calls
      → Returns
          (run_all F sha1 fl sort sorts (and_flush calls r) c)
          λ u. (s : Series) → waiting s u.0.workers ≡ 0
  unfolding run_all
  run_all-flushed [] r v all =
      let (u, run, (w, counts)) = flush-posted F sha1 fl sort sorts r v in
      ((u.0, u.2 ++ []), rw run refl, λ s. (counts s).1)
  run_all-flushed (frame q f ∷ calls) r v all =
      let (u, run, (w, counts)) = handle_frame-Counted F sha1 q f v all.0 in
      let (z, later, none_waits) = run_all-flushed calls r w all.1 in
      ((z.0, u.1 ++ z.1), rw (run, later), none_waits)
  run_all-flushed (flushes q ∷ calls) r v all =
      let (u, run, (w, counts)) = flush-posted F sha1 fl sort sorts q v in
      let (z, later, none_waits) = run_all-flushed calls r w all.1 in
      ((z.0, u.2 ++ z.1), rw (run, later), none_waits)

  -- From a new collector, whatever frames of workers that exist have been handled and however often
  -- it has been flushed: when another flush ends, the counters of each of the four vectors, by
  -- country, by ASN, by version and by family, add up to the number of requests handled so far.
  pub run_all-shown :
      (asn_top_n num_workers : ℕ) (calls : List Call) (r : FlushReading)
      → All (IsCall (max num_workers 1)) calls
      → Returns
          (run_all F sha1 fl sort sorts (and_flush calls r) (new asn_top_n num_workers))
          λ u. (s : Series) → shown (vector s) (map call_of u.1) ≡ requests_in calls
  run_all-shown asn_top_n num_workers calls r all =
      let all' = All-append (IsCall (max num_workers 1)) calls (flushes r ∷ []) all (tt, tt) in
      let (u, run, (w, counts)) =
        run_all-conserves F sha1 fl sort sorts asn_top_n num_workers (and_flush calls r) all' in
      let (u', run', none_waits) =
        run_all-flushed calls r (new-IsValidOf asn_top_n num_workers) all in
      let same : u' ≡ u = cc in
      (
        u,
        run,
        λ s.
            let z : waiting s u.0.workers ≡ 0 = rw same at none_waits s in
            omega (arith, shown-posted s u.1, counts s, z, requests_in-and_flush calls r),
      )
