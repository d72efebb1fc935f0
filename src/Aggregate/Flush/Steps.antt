-- ===== src/Aggregate/Flush/Steps.antt =====
-- What one call of `HandleFrame` of exporter/internal/aggregate/aggregate.go adds to the series of
-- requests.
use ntp_server.Base.{
  ℕ, ◌+◌, ◌<◌, ◌≡◌, ◌∙◌, refl, ap, inl, inr, Option, some, List, ◌∷◌, arith, set, get_elem?,
  get_elem?-lt, leb, if◌then◌else◌, Bool-cases, Returns, ◌==◌, string_eq, length, length-set,
  GoString,
}
use ntp_server.Frame.{request}
use ntp_server.Aggregate.{Collector, Shard, Event, WorkerCounters, capture_packets, shard_index}
use ntp_server.Aggregate.Handle.{
  Frame, Reading, sweep, touch, remember, pair, handle_frame, count_request, count_response,
}
use ntp_server.Aggregate.Keeps.{IsValidOf, sweep-IsValid, shard_index-lt}
use ntp_server.Aggregate.Invariant.{
  handle_request_lem, handle_response_lem, request_events, after_response,
}
use ntp_server.Aggregate.Flush.Ledger.{
  Series, waiting, posts, posted, posted-append, waiting-set, waits-count_request,
  waits-count_response,
}

module _ (F : Type 0) where
  pub posted-touch :
      (s : Series) (ip : GoString) (now : ℕ) (sh : Shard) → posted s (touch {F = F} ip now sh).1 ≡ 0
  unfolding posted posts touch
  posted-touch s ip now sh = ground arith

  pub posted-remember :
      (s : Series) (ip : GoString) (xid : Option (List ℕ)) (ts : ℕ) (sh : Shard)
      → posted s (remember {F = F} ip xid ts sh).1 ≡ 0
  unfolding posted posts remember
  posted-remember s ip xid ts sh = ground arith

  pub posted-pair :
      (s : Series) (ip : GoString) (xid : Option (List ℕ)) (ts : ℕ) (sh : Shard)
      → posted s (pair {F = F} ip xid ts sh).1 ≡ 0
  unfolding posted posts pair
  posted-pair s ip xid ts sh = ground arith

  pub posted-capture :
      (s : Series) (d : GoString) (es : List (Event F))
      → posted s (capture_packets d ∷ es) ≡ posted s es
  unfolding posted posts
  posted-capture s d es = ground arith

workers-sweep : (ts : ℕ) (c : Collector) → (sweep ts c).workers ≡ c.workers
unfolding sweep
workers-sweep ts c = elim (Bool-cases (leb 1024 (c.frames_since_sweep + 1))) [
  | inl due ↦ rw (sweep, due)
  | inr other ↦ rw (sweep, other)
]

module _ (F : Type 0) (sha1 : List ℕ → List ℕ) where
  -- the maps of the worker after a call
  abbrev pub counted : Reading → Frame → WorkerCounters → WorkerCounters
  counted r f wc =
      if f.direction == request
      then count_request r.geo f.version f.family wc
      else count_response r.geo wc

  -- the calls on the metrics that follow the first one
  abbrev pub later_events : Reading → Frame → Shard → List (Event F)
  later_events r f sh =
      if f.direction == request then request_events F sha1 r f sh else (pair f.ip f.xid f.ts sh).1

  -- what a call of `HandleFrame` does to the maps of the workers, and publishes
  abbrev pub Writes : ℕ → Reading → Frame → Collector → Collector × List (Event F) → Type 0
  Writes n r f c u =
      IsValidOf n u.0
      × (wc : WorkerCounters) × (sh : Shard) × (get_elem? c.workers f.worker ≡ some wc)
      × (u.0.workers ≡ set c.workers f.worker (counted r f wc))
      × (u.1 ≡ capture_packets f.direction ∷ later_events r f sh)

  handle_frame-Writes_at :
      (r : Reading) (f : Frame) {n : ℕ} {c : Collector} {wc : WorkerCounters} {sh : Shard}
      → IsValidOf n c
      → get_elem? c.workers f.worker ≡ some wc
      → get_elem? (sweep f.ts c).shards (shard_index f.ip) ≡ some sh
      → Returns (handle_frame {F = F} sha1 r f c) (Writes n r f c)
  unfolding handle_frame
  handle_frame-Writes_at r f {n} {c} {wc} {sh} v e at_shard =
      let (w, l) = sweep-IsValid f.ts n v in
      let at_worker : get_elem? (sweep f.ts c).workers f.worker ≡ some wc =
        rw (workers-sweep f.ts c) e in
      elim (Bool-cases (f.direction == request)) [
        | inl q ↦
            let (d, run, valid, eq) = handle_request_lem F sha1 r f w at_worker at_shard in
            let wc' : WorkerCounters = count_request r.geo f.version f.family wc in
            let workers : d.workers ≡ set c.workers f.worker wc' =
              ap (λ (d : Collector). d.workers) eq
              ∙ ap (λ (ws : List WorkerCounters). set ws f.worker wc') (workers-sweep f.ts c) in
            (
              (d, capture_packets f.direction ∷ request_events F sha1 r f sh),
              rw (e, q, run),
              (
                (valid, ap length workers ∙ length-set c.workers f.worker wc' ∙ v.1),
                wc,
                sh,
                e,
                rw q workers,
                rw q refl,
              ),
            )
        | inr a ↦
            let (run, valid) = handle_response_lem F sha1 r f w at_worker at_shard in
            let wc' : WorkerCounters = count_response r.geo wc in
            (
              (
                after_response F sha1 r f wc sh (sweep f.ts c),
                capture_packets f.direction ∷ (pair f.ip f.xid f.ts sh).1,
              ),
              rw (e, a, run),
              (
                (valid, length-set (sweep f.ts c).workers f.worker wc' ∙ l),
                wc,
                sh,
                e,
                rw (a, workers-sweep f.ts c) refl,
                rw a refl,
              ),
            )
      ]

  pub handle_frame-Writes :
      (r : Reading) (f : Frame) {n : ℕ} {c : Collector}
      → IsValidOf n c
      → f.worker < n
      → Returns (handle_frame {F = F} sha1 r f c) (Writes n r f c)
  handle_frame-Writes r f {n} {c} v lt =
      let (w, l) = sweep-IsValid f.ts n v in
      let (wc, e) = get_elem?-lt c.workers f.worker (omega (arith, v.1)) in
      let (sh, at_shard) =
        get_elem?-lt (sweep f.ts c).shards (shard_index f.ip)
          (omega (arith, w.num_shards, shard_index-lt f.ip)) in
      handle_frame-Writes_at r f v e at_shard

  -- a call of `HandleFrame` counts a request once, and publishes nothing of the series
  abbrev pub Counted : ℕ → Frame → Collector → Collector × List (Event F) → Type 0
  Counted n f c u =
      IsValidOf n u.0
      × ((s : Series)
          → (waiting s u.0.workers
              ≡ waiting s c.workers + (if f.direction == request then 1 else 0))
            × (posted s u.1 ≡ 0))

  waiting-counted :
      (s : Series) (r : Reading) (f : Frame) (workers : List WorkerCounters) (wc : WorkerCounters)
      → get_elem? workers f.worker ≡ some wc
      → waiting s (set workers f.worker (counted r f wc))
        ≡ waiting s workers + (if f.direction == request then 1 else 0)
  waiting-counted s r f workers wc e = elim (Bool-cases (f.direction == request)) [
    | inl q ↦ rw q (
        omega (
          arith,
          waiting-set s workers f.worker wc (count_request r.geo f.version f.family wc) e,
          waits-count_request s r.geo f.version f.family wc,
        ))
    | inr a ↦ rw a (
        omega (
          arith,
          waiting-set s workers f.worker wc (count_response r.geo wc) e,
          waits-count_response s r.geo wc,
        ))
  ]

  posted-later_events :
      (s : Series) (r : Reading) (f : Frame) (sh : Shard) → posted s (later_events r f sh) ≡ 0
  posted-later_events s r f sh = elim (Bool-cases (f.direction == request)) [
    | inl q ↦ rw (q, posted-append s, posted-touch F s, posted-remember F s) refl
    | inr a ↦ rw (a, posted-pair F s) refl
  ]

  pub handle_frame-Counted :
      (r : Reading) (f : Frame) {n : ℕ} {c : Collector}
      → IsValidOf n c
      → f.worker < n
      → Returns (handle_frame {F = F} sha1 r f c) (Counted n f c)
  handle_frame-Counted r f {n} {c} v lt =
      let (u, run, (valid, wc, sh, at, workers, events)) = handle_frame-Writes r f v lt in
      (
        u,
        run,
        (
          valid,
          λ s. (
            rw workers (waiting-counted s r f c.workers wc at),
            rw (events, posted-capture F s) (posted-later_events s r f sh),
          ),
        ),
      )
