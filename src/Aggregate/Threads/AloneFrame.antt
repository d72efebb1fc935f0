-- ===== src/Aggregate/Threads/AloneFrame.antt =====
-- A call of `HandleFrame` of exporter/internal/aggregate/aggregate.go that no other call
-- interrupts is the call as one step of Aggregate/Handle.
use ntp_server.Base.{
  ℕ, ◌+◌, ◌<◌, ◌≡◌, refl, ap, inl, inr, Bool, List, [], ◌∷◌, ◌++◌, arith, length, true, false,
  get_elem?-lt, if◌then◌else◌, leb, ltb, nat_eqb_iff, Bool-cases, ok, Run-cases, panic-ne-ok,
  Returns, ◌==◌, string_eq,
}
use mathlib.Core.List.{append-nil}
use ntp_server.Frame.{request}
use ntp_server.Hll.{Floats}
use ntp_server.Aggregate.{Collector, Event, capture_packets, shard_index}
use ntp_server.Aggregate.Asn.{Kv}
use ntp_server.Aggregate.Hours.{add_to_current_bucket}
use ntp_server.Aggregate.Handle.{
  Frame, Reading, sweep_shard, sweep, with_shard, with_worker, handle_request, handle_response,
  handle_frame, touch, remember, count_request, count_response,
}
use ntp_server.Aggregate.Keeps.{IsValidOf, sweep-IsValid}
use ntp_server.Aggregate.Invariant.{handled-IsValid}
use ntp_server.Aggregate.Threads.{
  idle, entered, counting, touching, bucketing, remembering, pairing, added, sweeping, step,
}
use ntp_server.Aggregate.Threads.Alone.{Alone, stops, goes, Alone-whole, Alone-append, if-same}

module _ {F : Type 0} (sha1 : List ℕ → List ℕ) (fl : Floats F)
    (sort : (Kv → Kv → Bool) → List Kv → List Kv) where
  -- the rest of a request, after the sweep
  Alone-request :
      (r : Reading) (f : Frame) (c : Collector) {u : Collector × List (Event F)}
      → (f.direction == request) ≡ true
      → handle_request sha1 r f c ≡ ok u
      → Alone sha1 fl sort (counting r f) c u.0 (capture_packets f.direction ∷ u.1)
  unfolding step handle_request
  Alone-request r f c {u} q h =
      elim (Run-cases (with_worker f.worker (count_request r.geo f.version f.family) c)) [
        | inl fails ↦ absurd (panic-ne-ok (rw fails at h))
        | inr (c₁, counted) ↦
            let h₁ = rw counted at h in
            elim (Run-cases (with_shard (shard_index f.ip) (touch {F = F} f.ip r.clock) c₁)) [
              | inl fails ↦ absurd (panic-ne-ok (rw fails at h₁))
              | inr (p₂, touched) ↦
                  let h₂ = rw touched at h₁ in
                  elim (Run-cases (add_to_current_bucket sha1 r.wall f.ip p₂.0)) [
                    | inl fails ↦ absurd (panic-ne-ok (rw fails at h₂))
                    | inr (c₃, put_in) ↦
                        let h₃ = rw put_in at h₂ in
                        elim (Run-cases
                          (with_shard (shard_index f.ip) (remember {F = F} f.ip f.xid f.ts) c₃)) [
                            | inl fails ↦ absurd (panic-ne-ok (rw fails at h₃))
                            | inr (p₄, remembered) ↦
                                let e : (p₄.0, p₂.1 ++ p₄.1) ≡ u = cc (rw remembered at h₃) in
                                rw (← e) (
                                  Alone-append sha1 fl sort
                                    (ap (◌∷◌ (capture_packets f.direction))
                                      (ap (◌++◌ p₂.1) (append-nil p₄.1)))
                                    (goes {g' = touching r f} {c' = c₁}
                                      {es = capture_packets f.direction ∷ []} (rw (q, counted) refl)
                                      (goes {g' = bucketing r f} {c' = p₂.0} {es = p₂.1}
                                        (rw touched refl)
                                        (goes {g' = remembering r f} {c' = c₃} {es = []}
                                          (rw put_in refl)
                                          (goes {g' = idle} {c' = p₄.0} {es = p₄.1}
                                            (rw remembered refl) stops)))))
                          ]
                  ]
            ]
      ]

  Alone-response :
      (r : Reading) (f : Frame) (c : Collector) {u : Collector × List (Event F)}
      → (f.direction == request) ≡ false
      → handle_response {F = F} r f c ≡ ok u
      → Alone sha1 fl sort (counting r f) c u.0 (capture_packets f.direction ∷ u.1)
  unfolding step handle_response
  Alone-response r f c {u} a h = elim (Run-cases (with_worker f.worker (count_response r.geo) c)) [
    | inl fails ↦ absurd (panic-ne-ok (rw fails at h))
    | inr (c₁, counted) ↦
        Alone-append sha1 fl sort (ap (◌∷◌ (capture_packets f.direction)) (append-nil u.1)) (
          goes {g' = pairing r f} {c' = c₁} {es = capture_packets f.direction ∷ []}
            (rw (a, counted) refl)
            (goes {g' = idle} {c' = u.0} {es = u.1} (rw (rw counted at h) refl) stops))
  ]

  -- what follows the sweep
  Alone-counting :
      (r : Reading) (f : Frame) (c : Collector) {u : Collector × List (Event F)}
      → (if f.direction == request then handle_request sha1 r f c else handle_response r f c) ≡ ok u
      → Alone sha1 fl sort (counting r f) c u.0 (capture_packets f.direction ∷ u.1)
  Alone-counting r f c h = elim (Bool-cases (f.direction == request)) [
    | inl q ↦ Alone-request r f c q (rw q at h)
    | inr a ↦ Alone-response r f c a (rw a at h)
  ]

  -- the sweep, if it is due
  Alone-sweep :
      (r : Reading) (f : Frame) (c d : Collector) (es : List (Event F))
      → 0 < length c.shards
      → Alone sha1 fl sort (counting r f) (sweep f.ts c) d es
      → Alone sha1 fl sort
          (added r f (c.frames_since_sweep + 1))
          (record c { frames_since_sweep = c.frames_since_sweep + 1 })
          d
          es
  unfolding step sweep with_shard
  Alone-sweep r f c d es some_shard a = elim (Bool-cases (leb 1024 (c.frames_since_sweep + 1))) [
    | inl due ↦
        let no_events : List (Event F) = [] in
        let same = (nat_eqb_iff (c.frames_since_sweep + 1) (c.frames_since_sweep + 1)).1 refl in
        goes {g' = sweeping r f 0} {c' = record c { frames_since_sweep = 0 }} {es = []}
          (rw (due, same) refl)
          (Alone-whole sha1 fl sort (λ xs. record c { frames_since_sweep = 0; shards = xs })
            (sweep_shard f.ts) (λ (s : Unit {0}) x. s) (λ s i. sweeping r f i) (λ s. counting r f)
            (λ s. [])
            (λ xs i y s at. rw (at, if-same (ltb (i + 1) (length xs)) {x = no_events}) refl)
            c.shards tt some_shard (rw due at a))
    | inr early ↦ goes {g' = counting r f} {es = []} (rw early refl) (rw early at a)
  ]

  -- For any frame of a worker that exists, and any answers of the resolver and the clocks: the
  -- steps of a goroutine through `HandleFrame` that no other goroutine interrupts end, and come
  -- to the state and the calls on the metrics of `handle_frame`.
  pub handle_frame-Alone :
      (r : Reading) (f : Frame) {n : ℕ} {c : Collector}
      → IsValidOf n c
      → f.worker < n
      → Returns (handle_frame {F = F} sha1 r f c) (λ u. Alone sha1 fl sort (entered r f) c u.0 u.1)
  unfolding handle_frame step
  handle_frame-Alone r f {n} {c} v lt =
      let (wc, e) = get_elem?-lt c.workers f.worker (omega (arith, v.1)) in
      let (u, run, w) = handled-IsValid F sha1 r f (sweep-IsValid f.ts n v) lt in
      let rest = Alone-counting r f (sweep f.ts c) run in
      (
        (u.0, capture_packets f.direction ∷ u.1),
        rw (e, run),
        goes {g' = added r f (c.frames_since_sweep + 1)}
            {c' = record c { frames_since_sweep = c.frames_since_sweep + 1 }} {es = []} (rw e refl)
            (Alone-sweep r f c u.0 (capture_packets f.direction ∷ u.1)
              (omega (arith, v.0.num_shards)) rest),
      )
