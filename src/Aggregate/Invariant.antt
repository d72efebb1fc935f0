-- ===== src/Aggregate/Invariant.antt =====
-- `HandleFrame` of exporter/internal/aggregate/aggregate.go keeps the collector valid and does not
-- panic for a worker that exists.
use ntp_server.Base.{
  ℕ, ◌<◌, ◌≡◌, ◌∙◌, ap, true, inl, inr, some, List, ◌∷◌, ◌++◌, arith, length, set, get_elem?,
  get_elem?-lt, length-set, set-set, get_elem?-set_self, All-get, if◌then◌else◌, Bool-cases, ok,
  Returns, ◌==◌, string_eq,
}
use ntp_server.Frame.{request}
use ntp_server.Aggregate.{Collector, WorkerCounters, Shard, Event, capture_packets, shard_index}
use ntp_server.Aggregate.Hours.{hour_of}
use ntp_server.Aggregate.Handle.{
  Frame, Reading, count_request, count_response, touch, remember, pair, with_worker, with_shard,
  handle_request, handle_response, handle_frame,
}
use ntp_server.Aggregate.Valid.{
  IsValid, IsValidWorker, IsValidShard, count_request-IsValidWorker, count_response-IsValidWorker,
  touch-IsValidShard, remember-IsValidShard, pair-IsValidShard,
}
use ntp_server.Aggregate.Keeps.{
  IsValidOf, sweep-IsValid, shard_index-lt, add_to_current_bucket-IsValid, IsValid-shard,
  IsValid-set,
}

module _ (F : Type 0) (sha1 : List ℕ → List ℕ) (r : Reading) (f : Frame) where
  abbrev pub request_shard : Shard → Shard
  request_shard sh = (remember {F = F} f.ip f.xid f.ts (touch {F = F} f.ip r.clock sh).0).0

  abbrev pub request_events : Shard → List (Event F)
  request_events sh =
      (touch f.ip r.clock sh).1 ++ (remember f.ip f.xid f.ts (touch {F = F} f.ip r.clock sh).0).1

  -- a request changes its worker's counters, its client's shard and the sketches
  abbrev pub after_request : WorkerCounters → Shard → Collector → Collector
  after_request wc sh c = record c {
    workers = set c.workers f.worker (count_request r.geo f.version f.family wc);
    shards = set c.shards (shard_index f.ip) (request_shard sh);
  }

  abbrev pub after_response : WorkerCounters → Shard → Collector → Collector
  after_response wc sh c = record c {
    workers = set c.workers f.worker (count_response r.geo wc);
    shards = set c.shards (shard_index f.ip) (pair {F = F} f.ip f.xid f.ts sh).0;
  }

  module _ {c : Collector} {wc : WorkerCounters} {sh : Shard} (w : IsValid c)
      (at_worker : get_elem? c.workers f.worker ≡ some wc)
      (at_shard : get_elem? c.shards (shard_index f.ip) ≡ some sh) where
    pub handle_request_lem :
        (d : Collector) × (handle_request sha1 r f c ≡ ok (d, request_events sh))
        × IsValid d
        × (d ≡ record (after_request wc sh c) {
          hourly = d.hourly;
          hour = hour_of r.wall;
          hour_set = true;
        })
    unfolding handle_request with_worker with_shard
    handle_request_lem =
        let wc' = count_request r.geo f.version f.family wc in
        let k : ℕ = shard_index f.ip in
        let sh' = (touch {F = F} f.ip r.clock sh).0 in
        let valid_wc =
          count_request-IsValidWorker r.geo f.version f.family wc
            (All-get IsValidWorker c.workers f.worker at_worker w.workers) in
        let valid_sh =
          touch-IsValidShard F f.ip r.clock sh
            (All-get IsValidShard c.shards k at_shard w.shards) in
        let (b, run, (v, e)) =
          add_to_current_bucket-IsValid sha1 r.wall f.ip
            (IsValid-set f.worker k wc' sh' w valid_wc valid_sh) in
        let again : get_elem? b.shards k ≡ some sh' =
          ap (λ (d : Collector). get_elem? d.shards k) e
          ∙ get_elem?-set_self c.shards k sh' (omega (arith, w.num_shards, shard_index-lt f.ip)) in
        let sh'' = (remember {F = F} f.ip f.xid f.ts sh').0 in
        (
          record b { shards = set b.shards k sh'' },
          rw (at_worker, at_shard, run, again),
          IsValid-shard k sh'' v (remember-IsValidShard F f.ip f.xid f.ts sh' valid_sh),
          ap (λ (d : Collector). record d { shards = set d.shards k sh'' }) e
              ∙ ap
                  (λ (xs : List Shard). record c {
                    workers = set c.workers f.worker wc';
                    shards = xs;
                    hourly = b.hourly;
                    hour = hour_of r.wall;
                    hour_set = true;
                  })
                  (set-set c.shards k sh' sh''),
        )

    pub handle_response_lem :
        (handle_response {F = F} r f c ≡ ok (after_response wc sh c, (pair f.ip f.xid f.ts sh).1))
        × IsValid (after_response wc sh c)
    unfolding handle_response with_worker with_shard
    handle_response_lem = (
      rw (at_worker, at_shard),
      IsValid-set f.worker (shard_index f.ip) _ _ w
          (count_response-IsValidWorker r.geo wc
            (All-get IsValidWorker c.workers f.worker at_worker w.workers))
          (pair-IsValidShard F f.ip f.xid f.ts sh
            (All-get IsValidShard c.shards (shard_index f.ip) at_shard w.shards)),
    )

module _ (F : Type 0) (sha1 : List ℕ → List ℕ) (r : Reading) (f : Frame) {n : ℕ} where
  pub handled-IsValid :
      {c : Collector}
      → IsValidOf n c
      → f.worker < n
      → Returns
          (if f.direction == request
            then handle_request {F = F} sha1 r f c
            else handle_response {F = F} r f c)
          (λ u. IsValidOf n u.0)
  handled-IsValid {c} (w, l) lt =
      let (wc, at_worker) = get_elem?-lt c.workers f.worker (omega arith) in
      let (sh, at_shard) =
        get_elem?-lt c.shards (shard_index f.ip)
          (omega (arith, w.num_shards, shard_index-lt f.ip)) in
      elim (Bool-cases (f.direction == request)) [
        | inl q ↦
            let (d, run, v, e) = handle_request_lem F sha1 r f w at_worker at_shard in
            (
              (d, request_events F sha1 r f sh),
              rw q run,
              (v, ap (λ (d : Collector). length d.workers) e ∙ length-set c.workers f.worker _ ∙ l),
            )
        | inr a ↦
            let (run, v) = handle_response_lem F sha1 r f w at_worker at_shard in
            (
              (after_response F sha1 r f wc sh c, (pair f.ip f.xid f.ts sh).1),
              rw a run,
              (v, length-set c.workers f.worker _ ∙ l),
            )
      ]

  -- `HandleFrame` on a valid collector, for a worker that exists, does not panic, whatever the
  -- frame and the readings of the clocks, and keeps the collector valid: at most `pending_max`
  -- requests are pending in each shard, the maps have no key twice, the frame counter stays below
  -- the sweep threshold, and the 24 sketches stay well formed. The number of workers is kept.
  pub handle_frame-IsValid :
      {c : Collector}
      → IsValidOf n c
      → f.worker < n
      → Returns (handle_frame {F = F} sha1 r f c) (λ u. IsValidOf n u.0)
  unfolding handle_frame
  handle_frame-IsValid {c} (w, l) lt =
      let (wc, e) = get_elem?-lt c.workers f.worker (omega arith) in
      let (u, run, v) = handled-IsValid (sweep-IsValid f.ts n (w, l)) lt in
      ((u.0, capture_packets f.direction ∷ u.1), rw (e, run), v)
