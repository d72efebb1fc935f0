-- ===== src/Aggregate/Latency.antt =====
-- Requests and responses are paired by `HandleFrame` of
-- exporter/internal/aggregate/aggregate.go, across workers and through frames of other clients.
use ntp_server.Base.{
  ℕ, ◌+◌, ◌-◌, ◌≤◌, ◌<◌, ◌≡◌, ◌≢◌, refl, true, false, none, some, List, [], ◌∷◌, ◌++◌, length,
  get_elem?, All, GoString, ◌==◌, string_eq, Run, ok, ◌>>=◌, Returns,
}
use ntp_server.Frame.{request}
use ntp_server.Aggregate.{
  Collector, Shard, Event, capture_packets, response_latency, pending_key, shard_index, pending_max,
  pending_ttl,
}
use ntp_server.Aggregate.Handle.{Frame, Reading, handle_frame}
use ntp_server.Aggregate.Keeps.{IsValidOf}
use ntp_server.Aggregate.Pending.{key_of, pending_at}
use ntp_server.Aggregate.Handled.{handle_frame-keeps, handle_frame-stores, handle_frame-pairs}

module _ (F : Type 0) (sha1 : List ℕ → List ℕ) (n : ℕ) where
  -- one call after another
  unfoldable pub handle_all : List (Reading × Frame) → Collector → Run (Collector × List (Event F))
  handle_all [] c = ok (c, [])
  handle_all ((r, f) ∷ fs) c = do
    (c', events) ← handle_frame sha1 r f c
    (c'', later) ← handle_all fs c'
    ok (c'', events ++ later)

  -- frames that leave the request under a key pending since `t`
  abbrev pub Unrelated : GoString → ℕ → Reading × Frame → Type 0
  Unrelated pk t (r, f) = (f.worker < n) × (key_of f.ip f.xid ≢ some pk) × (f.ts ≤ t + pending_ttl)

  handle_all-keeps :
      (fs : List (Reading × Frame)) {c : Collector} (k : ℕ) (pk : GoString) (t : ℕ)
      → IsValidOf n c
      → All (Unrelated pk t) fs
      → pending_at c k pk ≡ some t
      → Returns (handle_all fs c) (λ u. IsValidOf n u.0 × (pending_at u.0 k pk ≡ some t))
  unfolding handle_all
  handle_all-keeps [] {c} k pk t v all e = ((c, []), refl, (v, e))
  handle_all-keeps ((r, f) ∷ fs) k pk t v all e =
      let (u, run, (v', e')) = handle_frame-keeps F sha1 r f n k pk t v all.0.0 all.0.1 all.0.2 e in
      let (w, later, done) = handle_all-keeps fs k pk t v' all.1 e' in
      ((w.0, u.1 ++ w.1), rw (run, later), done)

  -- A request that finds room in its shard and is answered within the time to live has its latency
  -- observed, once, and is not pending afterwards: whichever workers capture the two frames,
  -- whatever the clocks read, and whatever frames with other keys are handled in between (none
  -- later than the time to live), sweeps included. Nothing panics.
  pub request_response :
      (r r' : Reading) (f g : Frame) (between : List (Reading × Frame)) {c : Collector} {sh : Shard}
      (xid : List ℕ)
      → IsValidOf n c
      → (f.worker < n) × (g.worker < n)
      → (f.direction == request) ≡ true
      → (g.direction == request) ≡ false
      → (f.xid ≡ some xid) × (g.xid ≡ some xid) × (g.ip ≡ f.ip)
      → (f.ts ≤ g.ts) × (g.ts ≤ f.ts + pending_ttl)
      → get_elem? c.shards (shard_index f.ip) ≡ some sh
      → length sh.pending < pending_max
      → All (Unrelated (pending_key f.ip xid) f.ts) between
      → Returns
          (do
            (c₁, asked) ← handle_frame {F = F} sha1 r f c
            (c₂, others) ← handle_all between c₁
            handle_frame {F = F} sha1 r' g c₂)
          (λ u.
            (u.1 ≡ capture_packets g.direction ∷ response_latency (g.ts - f.ts) ∷ [])
            × (pending_at u.0 (shard_index g.ip) (pending_key g.ip xid) ≡ none))
  request_response r r' f g between xid v (lf, lg) q a (xf, xg, ip) (after, young) at_shard room
        all =
      let (u, run, (v₁, e₁)) = handle_frame-stores F sha1 r f n xid v lf q xf at_shard room in
      let (w, later, (v₂, e₂)) =
        handle_all-keeps between (shard_index f.ip) (pending_key f.ip xid) f.ts v₁ all e₁ in
      let e₃ : pending_at w.0 (shard_index g.ip) (pending_key g.ip xid) ≡ some f.ts = rw ip e₂ in
      let (z, answered, done) =
        handle_frame-pairs F sha1 r' g n xid f.ts v₂ lg a xg after young e₃ in
      (z, rw (run, later) answered, done)
