-- ===== src/Aggregate/Handle.antt =====
-- exporter/internal/aggregate/aggregate.go: `HandleFrame`, one call after another. What the
-- resolver and the two clocks answer during the call is an argument. The result is the new state
-- with the calls on the metrics.
use ntp_server.Base.{
  ℕ, ◌+◌, ◌-◌, Bool, false, Option, none, some, List, [], ◌∷◌, ◌++◌, map, length, set, get_elem?,
  ltb, leb, ◌==◌, nat_eq, string_eq, GoString, bytes, if◌then◌else◌, Run, ok, ◌>>=◌, or_panic,
}
use ntp_server.Base.Int.{sub_ℕ}
use ntp_server.Base.GoMap.{lookup, insert, delete, delete_where}
use ntp_server.Base.Counters.{bump}
use ntp_server.Frame.{request}
use ntp_server.Aggregate.{
  Collector, WorkerCounters, Shard, GeoResult, CountryKey, AsnKey, Event, country_key_eq,
  asn_key_eq, capture_packets, request_interval, pending_overflow, response_latency, shard_index,
  pending_key, pending_max, pending_ttl, pending_sweep_every,
}
use ntp_server.Aggregate.Hours.{add_to_current_bucket}

-- The arguments of `HandleFrame`; `xid` is `none` for nil.
pub record Frame : Type 0 where
  pub worker : ℕ
  pub direction : GoString
  pub ip : GoString
  pub family : GoString
  pub version : GoString
  pub xid : Option (List ℕ)
  pub ts : ℕ

-- What `c.geo.Resolve(ip)`, `c.clock()` and `c.wall()` return during the call.
pub record Reading : Type 0 where
  pub geo : GeoResult
  pub clock : ℕ
  pub wall : ℕ

-- `e.reqTS.Before(ts.Add(-PendingTTL))`
unfoldable pub is_stale : ℕ → ℕ → Bool
is_stale ts req_ts = ltb (req_ts + pending_ttl) ts

unfoldable pub sweep_shard : ℕ → Shard → Shard
sweep_shard ts sh = record sh { pending = delete_where (is_stale ts) sh.pending }

-- `framesSinceSweep`, and the sweep of all shards by the call that resets it
unfoldable pub sweep : ℕ → Collector → Collector
sweep ts c =
    let n = c.frames_since_sweep + 1 in
    if leb pending_sweep_every n
    then record c { frames_since_sweep = 0; shards = map (sweep_shard ts) c.shards }
    else record c { frames_since_sweep = n }

abbrev pub country_key : GeoResult → CountryKey
country_key geo = record { country = geo.country; continent = geo.continent }

abbrev pub asn_key : GeoResult → AsnKey
asn_key geo = record { asn = geo.asn; has_asn = geo.has_asn; as_org = geo.as_org }

-- an unknown version folds to "other"
unfoldable pub version_label : GoString → GoString
version_label v = if v == [] then bytes "other" else v

unfoldable pub count_request : GeoResult → GoString → GoString → WorkerCounters → WorkerCounters
count_request geo version family wc = record wc {
  requests = bump (country_key geo) 1 wc.requests;
  asn_requests = bump (asn_key geo) 1 wc.asn_requests;
  version_requests = bump (version_label version) 1 wc.version_requests;
  family_requests = bump family 1 wc.family_requests;
}

unfoldable pub count_response : GeoResult → WorkerCounters → WorkerCounters
count_response geo wc = record wc { responses = bump (country_key geo) 1 wc.responses }

unfoldable pub with_worker : ℕ → (WorkerCounters → WorkerCounters) → Collector → Run Collector
with_worker i f c = do
  wc ← or_panic (get_elem? c.workers i)
  ok (record c { workers = set c.workers i (f wc) })

module _ {F : Type 0} where
  -- `sh.active[ip] = now`, with the interval since the previous request
  unfoldable pub touch : GoString → ℕ → Shard → Shard × List (Event F)
  touch ip now sh = (
    record sh { active = insert ip now sh.active },
    elim (lookup ip sh.active) [ none ↦ [] | some prev ↦ request_interval (sub_ℕ now prev) ∷ [] ],
  )

  -- A request is remembered, unless it is new and the table is full.
  unfoldable pub remember : GoString → Option (List ℕ) → ℕ → Shard → Shard × List (Event F)
  remember ip none ts sh = (sh, [])
  remember ip (some xid) ts sh =
      let pk = pending_key ip xid in
      let full : Bool = elim (lookup pk sh.pending) [
        | none ↦ leb pending_max (length sh.pending)
        | some e ↦ false
      ] in
      if full
      then (sh, pending_overflow ∷ [])
      else (record sh { pending = insert pk ts sh.pending }, [])

  -- the latency of a response that came after its request
  abbrev pub latency : Option ℕ → ℕ → List (Event F)
  latency none ts = []
  latency (some req_ts) ts = if leb req_ts ts then response_latency (ts - req_ts) ∷ [] else []

  -- A response is paired with its request.
  unfoldable pub pair : GoString → Option (List ℕ) → ℕ → Shard → Shard × List (Event F)
  pair ip none ts sh = (sh, [])
  pair ip (some xid) ts sh =
      let pk = pending_key ip xid in
      let e = lookup pk sh.pending in
      (
        elim e [ none ↦ sh | some req_ts ↦ record sh { pending = delete pk sh.pending } ],
        latency e ts,
      )

  unfoldable pub with_shard :
      ℕ → (Shard → Shard × List (Event F)) → Collector → Run (Collector × List (Event F))
  with_shard i f c = do
    sh ← or_panic (get_elem? c.shards i)
    ok (record c { shards = set c.shards i (f sh).0 }, (f sh).1)

  unfoldable pub handle_request :
      (List ℕ → List ℕ) → Reading → Frame → Collector → Run (Collector × List (Event F))
  handle_request sha1 r f c = do
    c₁ ← with_worker f.worker (count_request r.geo f.version f.family) c
    (c₂, seen) ← with_shard (shard_index f.ip) (touch f.ip r.clock) c₁
    c₃ ← add_to_current_bucket sha1 r.wall f.ip c₂
    (c₄, kept) ← with_shard (shard_index f.ip) (remember f.ip f.xid f.ts) c₃
    ok (c₄, seen ++ kept)

  unfoldable pub handle_response : Reading → Frame → Collector → Run (Collector × List (Event F))
  handle_response r f c = do
    c₁ ← with_worker f.worker (count_response r.geo) c
    with_shard (shard_index f.ip) (pair f.ip f.xid f.ts) c₁

  -- `HandleFrame`; the index of the worker is checked first
  unfoldable pub handle_frame :
      (List ℕ → List ℕ) → Reading → Frame → Collector → Run (Collector × List (Event F))
  handle_frame sha1 r f c = do
    wc ← or_panic (get_elem? c.workers f.worker)
    let c' = sweep f.ts c
    (c'', events) ←
        if f.direction == request then handle_request sha1 r f c' else handle_response r f c'
    ok (c'', capture_packets f.direction ∷ events)
