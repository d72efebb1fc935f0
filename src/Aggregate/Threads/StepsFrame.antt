-- ===== src/Aggregate/Threads/StepsFrame.antt =====
-- One step of a goroutine in `HandleFrame` of exporter/internal/aggregate/aggregate.go: it does not
-- panic, and counts what it holds.
use ntp_server.Base.{
  ℕ, ◌+◌, ◌<◌, ◌&&◌, refl, ap, inl, inr, Bool, List, [], ◌∷◌, arith, length, set, leb, nat_eqb,
  Bool-cases, ◌==◌, string_eq,
}
use ntp_server.Frame.{request}
use ntp_server.Hll.{Floats}
use ntp_server.Base.Order.{Sorts}
use ntp_server.Aggregate.{Collector, capture_packets, shard_index}
use ntp_server.Aggregate.Asn.{Kv}
use ntp_server.Aggregate.Handle.{
  Frame, Reading, with_worker, sweep_shard, touch, remember, pair, count_request, count_response,
}
use ntp_server.Aggregate.Valid.{
  sweep_shard-IsValidShard, touch-IsValidShard, remember-IsValidShard, pair-IsValidShard,
  count_request-IsValidWorker, count_response-IsValidWorker,
}
use ntp_server.Aggregate.Keeps.{shard_index-lt}
use ntp_server.Aggregate.Flush.Ledger.{
  posted, waiting-set, waits-count_request, waits-count_response,
}
use ntp_server.Aggregate.Flush.Steps.{posted-touch, posted-remember, posted-pair, posted-capture}
use ntp_server.Aggregate.Threads.{
  idle, entered, counting, touching, bucketing, remembering, pairing, added, sweeping, next_of,
  step,
}
use ntp_server.Aggregate.Threads.Settled.{
  IsSettled, add_to_current_bucket-IsSettled, IsSettled-worker,
}
use ntp_server.Aggregate.Threads.Places.{
  IsPlaced, next_of-IsPlaced, next_of-held, with_shard-IsSettled, worker-IsSettled,
}
use ntp_server.Aggregate.Threads.Kept.{cas-Watched, Goes, posted-none}

module _ {F : Type 0} (sha1 : List ℕ → List ℕ) (fl : Floats F)
    (sort : (Kv → Kv → Bool) → List Kv → List Kv) (sorts : Sorts sort) (n : ℕ) (c : Collector)
    (w : IsSettled n c) where
  pub counting-Keeps :
      (r : Reading) (f : Frame) → f.worker < n → Goes sha1 fl sort n c w (counting r f)
  unfolding step with_worker
  counting-Keeps r f p =
      let (wc, found, valid) = worker-IsSettled c f.worker w p in
      elim (Bool-cases (f.direction == request)) [
        | inl q ↦
            let wc' = count_request r.geo f.version f.family wc in
            (
              (
                touching r f,
                record c { workers = set c.workers f.worker wc' },
                capture_packets f.direction ∷ [],
              ),
              rw (found, q) refl,
              (
                tt,
                IsSettled-worker c f.worker wc' w
                    (count_request-IsValidWorker r.geo f.version f.family wc valid),
                λ s.
                    rw (posted-capture F s, q)
                      (omega (
                        arith,
                        posted-none F s,
                        waiting-set s c.workers f.worker wc wc' found,
                        waits-count_request s r.geo f.version f.family wc,
                      )),
                inr (inr (refl, λ h. h)),
              ),
            )
        | inr a ↦
            let wc' = count_response r.geo wc in
            (
              (
                pairing r f,
                record c { workers = set c.workers f.worker wc' },
                capture_packets f.direction ∷ [],
              ),
              rw (found, a) refl,
              (
                tt,
                IsSettled-worker c f.worker wc' w (count_response-IsValidWorker r.geo wc valid),
                λ s.
                    rw (posted-capture F s, a)
                      (omega (
                        arith,
                        posted-none F s,
                        waiting-set s c.workers f.worker wc wc' found,
                        waits-count_response s r.geo wc,
                      )),
                inr (inr (refl, λ h. h)),
              ),
            )
      ]

  pub entered-Keeps :
      (r : Reading) (f : Frame) → IsPlaced n (entered r f) → Goes sha1 fl sort n c w (entered r f)
  unfolding step posted
  entered-Keeps r f p =
      let (wc, found, valid) = worker-IsSettled c f.worker w p in
      (
        (
          added r f (c.frames_since_sweep + 1),
          record c { frames_since_sweep = c.frames_since_sweep + 1 },
          [],
        ),
        rw found refl,
        (p, w, λ s. omega arith, inr (inl refl)),
      )

  pub added-Keeps :
      (r : Reading) (f : Frame) (k : ℕ)
      → IsPlaced n (added r f k)
      → Goes sha1 fl sort n c w (added r f k)
  unfolding step posted
  added-Keeps r f k p = elim (Bool-cases (leb 1024 k && nat_eqb c.frames_since_sweep k)) [
    | inl wins ↦ (
      (sweeping r f 0, record c { frames_since_sweep = 0 }, []),
      rw wins refl,
      ((p, omega arith), w, λ s. omega arith, inl (omega arith)),
    )
    | inr loses ↦ (
      (counting r f, c, []),
      rw loses refl,
      (p, w, λ s. omega arith, cas-Watched r f c.frames_since_sweep k loses),
    )
  ]

  pub sweeping-Keeps :
      (r : Reading) (f : Frame) (i : ℕ)
      → IsPlaced n (sweeping r f i)
      → Goes sha1 fl sort n c w (sweeping r f i)
  unfolding step posted
  sweeping-Keeps r f i p =
      let (sh, run, v) =
        with_shard-IsSettled {F = F} c i (λ sh. (sweep_shard f.ts sh, [])) w p.1
          (sweep_shard-IsValidShard f.ts) in
      (
        (
          next_of i (length c.shards) (sweeping r f) (counting r f),
          record c { shards = set c.shards i (sweep_shard f.ts sh) },
          [],
        ),
        rw run refl,
        (
          next_of-IsPlaced n i (length c.shards) (sweeping r f) (counting r f)
              (λ h. (p.0, omega (arith, w.0.num_shards))) p.0,
          v,
          λ s. omega (arith, next_of-held s i (length c.shards) (sweeping r f) (counting r f) refl),
          inr (inr (refl, λ h. h)),
        ),
      )

  pub touching-Keeps :
      (r : Reading) (f : Frame) → IsPlaced n (touching r f) → Goes sha1 fl sort n c w (touching r f)
  unfolding step posted
  touching-Keeps r f p =
      let (sh, run, v) =
        with_shard-IsSettled {F = F} c (shard_index f.ip) (touch f.ip r.clock) w
          (shard_index-lt f.ip) (touch-IsValidShard F f.ip r.clock) in
      (
        (
          bucketing r f,
          record c { shards = set c.shards (shard_index f.ip) (touch {F = F} f.ip r.clock sh).0 },
          (touch f.ip r.clock sh).1,
        ),
        rw run refl,
        (tt, v, λ s. omega (arith, posted-touch F s f.ip r.clock sh), inr (inr (refl, λ h. h))),
      )

  pub bucketing-Keeps :
      (r : Reading) (f : Frame)
      → IsPlaced n (bucketing r f)
      → Goes sha1 fl sort n c w (bucketing r f)
  unfolding step posted
  bucketing-Keeps r f p =
      let (d, run, (v, e)) = add_to_current_bucket-IsSettled sha1 r.wall f.ip w in
      (
        (remembering r f, d, []),
        rw run refl,
        (
          tt,
          v,
          λ s. rw e (omega arith),
          inr (inr (ap (λ (d : Collector). d.frames_since_sweep) e, λ h. h)),
        ),
      )

  pub remembering-Keeps :
      (r : Reading) (f : Frame)
      → IsPlaced n (remembering r f)
      → Goes sha1 fl sort n c w (remembering r f)
  unfolding step posted
  remembering-Keeps r f p =
      let (sh, run, v) =
        with_shard-IsSettled {F = F} c (shard_index f.ip) (remember f.ip f.xid f.ts) w
          (shard_index-lt f.ip) (remember-IsValidShard F f.ip f.xid f.ts) in
      (
        (
          idle,
          record c {
            shards = set c.shards (shard_index f.ip) (remember {F = F} f.ip f.xid f.ts sh).0;
          },
          (remember f.ip f.xid f.ts sh).1,
        ),
        rw run refl,
        (
          tt,
          v,
          λ s. omega (arith, posted-remember F s f.ip f.xid f.ts sh),
          inr (inr (refl, λ h. h)),
        ),
      )

  pub pairing-Keeps :
      (r : Reading) (f : Frame) → IsPlaced n (pairing r f) → Goes sha1 fl sort n c w (pairing r f)
  unfolding step posted
  pairing-Keeps r f p =
      let (sh, run, v) =
        with_shard-IsSettled {F = F} c (shard_index f.ip) (pair f.ip f.xid f.ts) w
          (shard_index-lt f.ip) (pair-IsValidShard F f.ip f.xid f.ts) in
      (
        (
          idle,
          record c { shards = set c.shards (shard_index f.ip) (pair {F = F} f.ip f.xid f.ts sh).0 },
          (pair f.ip f.xid f.ts sh).1,
        ),
        rw run refl,
        (tt, v, λ s. omega (arith, posted-pair F s f.ip f.xid f.ts sh), inr (inr (refl, λ h. h))),
      )
