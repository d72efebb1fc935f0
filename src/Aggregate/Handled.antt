-- ===== src/Aggregate/Handled.antt =====
-- One call of `HandleFrame` (exporter/internal/aggregate/aggregate.go): its whole effect on the
-- shards, and on one pending request.
use ntp_server.Base.{
  ℕ, ◌+◌, ◌-◌, ◌≤◌, ◌<◌, ◌≡◌, ◌≢◌, ◌∙◌, sym, refl, ap, true, false, inl, inr, none, some, List, [],
  ◌∷◌, arith, length, length-set, get_elem?, get_elem?-lt, get_elem?-set_self, get_elem?-set_ne,
  set, if◌then◌else◌, nat_eqb, Bool-cases, GoString, ◌==◌, string_eq, Returns,
}
use ntp_server.Base.GoMap.{lookup}
use ntp_server.Frame.{request}
use ntp_server.Aggregate.{
  Collector, Shard, Event, capture_packets, response_latency, pending_key, shard_index, pending_max,
  pending_ttl,
}
use ntp_server.Aggregate.Handle.{Frame, Reading, sweep, touch, pair, handle_frame}
use ntp_server.Aggregate.Keeps.{IsValidOf, sweep-IsValid, shard_index-lt}
use ntp_server.Aggregate.Invariant.{
  request_shard, request_events, after_response, handle_request_lem, handle_response_lem,
}
use ntp_server.Aggregate.Pending.{
  key_of, pending_at, pending_in, remember-stores, remember-keeps, pair-keeps, pair-removes,
  pair-observes, sweep-Swept, shard_of,
}

-- the pending table after a call: the shard of the client is replaced
pending_at-set :
    (shards : List Shard) (i k : ℕ) (sh : Shard) (pk : GoString)
    → i < length shards
    → pending_in pk (get_elem? (set shards i sh) k)
      ≡ (if nat_eqb i k then lookup pk sh.pending else pending_in pk (get_elem? shards k))
pending_at-set shards i k sh pk h = elim (Bool-cases (nat_eqb i k)) [
  | inl e ↦ let e' : i ≡ k = ground arith in rw (e, ← e', get_elem?-set_self shards i sh h)
  | inr d ↦ rw (d, get_elem?-set_ne shards i k sh (ground arith))
]

eq_self : (k : ℕ) → nat_eqb k k ≡ true
eq_self k = ground arith

module _ (F : Type 0) (sha1 : List ℕ → List ℕ) (r : Reading) (f : Frame) (n : ℕ) where
  -- what a call does, once the client's shard is known
  pub record Handled (c : Collector) (sh : Shard) (u : Collector × List (Event F)) : Type 0 where
    pub valid : IsValidOf n u.0
    pub shards :
        u.0.shards
        ≡ set (sweep f.ts c).shards (shard_index f.ip) (
            if f.direction == request
            then request_shard F sha1 r f sh
            else (pair {F = F} f.ip f.xid f.ts sh).0)
    pub events :
        u.1
        ≡ capture_packets f.direction
          ∷ (if f.direction == request
              then request_events F sha1 r f sh
              else (pair {F = F} f.ip f.xid f.ts sh).1)

  pub handle_frame-Handled :
      {c : Collector} {sh : Shard}
      → IsValidOf n c
      → f.worker < n
      → get_elem? (sweep f.ts c).shards (shard_index f.ip) ≡ some sh
      → Returns (handle_frame {F = F} sha1 r f c) (Handled c sh)
  unfolding handle_frame
  handle_frame-Handled {c} {sh} v lt at_shard =
      let (w, l) = sweep-IsValid f.ts n v in
      let (wc, e) = get_elem?-lt c.workers f.worker (omega (arith, v.1)) in
      let (wc', at_worker) = get_elem?-lt (sweep f.ts c).workers f.worker (omega arith) in
      elim (Bool-cases (f.direction == request)) [
        | inl q ↦
            let (d, run, valid, eq) = handle_request_lem F sha1 r f w at_worker at_shard in
            (
              (d, capture_packets f.direction ∷ request_events F sha1 r f sh),
              rw (e, q, run),
              record {
                valid = (
                  valid,
                  ap (λ (d : Collector). length d.workers) eq ∙ length-set _ f.worker _ ∙ l,
                );
                shards = rw q (ap (λ (d : Collector). d.shards) eq);
                events = rw q;
              },
            )
        | inr a ↦
            let (run, valid) = handle_response_lem F sha1 r f w at_worker at_shard in
            (
              (
                after_response F sha1 r f wc' sh (sweep f.ts c),
                capture_packets f.direction ∷ (pair f.ip f.xid f.ts sh).1,
              ),
              rw (e, a, run),
              record { valid = (valid, length-set _ f.worker _ ∙ l); shards = rw a; events = rw a },
            )
      ]

  abbrev handled_shard : Shard → Shard
  handled_shard sh =
      if f.direction == request
      then request_shard F sha1 r f sh
      else (pair {F = F} f.ip f.xid f.ts sh).0

  handled_shard-keeps :
      (pk : GoString) (sh : Shard)
      → key_of f.ip f.xid ≢ some pk
      → lookup pk (handled_shard sh).pending ≡ lookup pk sh.pending
  handled_shard-keeps pk sh other = elim (Bool-cases (f.direction == request)) [
    | inl q ↦ rw q (
        remember-keeps F f.ip f.ts (touch {F = F} f.ip r.clock sh).0 f.xid pk other
        ∙ touch_pending sh)
    | inr a ↦ rw a (pair-keeps F f.ip f.ts sh f.xid pk other)
  ]
    where
      touch_pending :
          (sh : Shard) → lookup pk (touch {F = F} f.ip r.clock sh).0.pending ≡ lookup pk sh.pending
      touch_pending sh = unfold touch in refl

  -- the client's shard after the sweep
  client_shard :
      {c : Collector}
      → IsValidOf n c
      → (sh : Shard) × (get_elem? (sweep f.ts c).shards (shard_index f.ip) ≡ some sh)
  client_shard v =
      get_elem?-lt _ (shard_index f.ip)
        (omega (arith, (sweep-IsValid f.ts n v).0.num_shards, shard_index-lt f.ip))

  pending_at-Handled :
      {c : Collector} {sh : Shard} {u : Collector × List (Event F)} (k : ℕ) (pk : GoString)
      → IsValidOf n c
      → Handled c sh u
      → pending_at u.0 k pk ≡ (
          if nat_eqb (shard_index f.ip) k
          then lookup pk (handled_shard sh).pending
          else pending_at (sweep f.ts c) k pk)
  pending_at-Handled {c} {sh} k pk v h =
      ap (λ (xs : List Shard). pending_in pk (get_elem? xs k)) h.shards
      ∙ pending_at-set (sweep f.ts c).shards (shard_index f.ip) k (handled_shard sh) pk
          (omega (arith, (sweep-IsValid f.ts n v).0.num_shards, shard_index-lt f.ip))

  -- a call for another key leaves a young request pending
  pub handle_frame-keeps :
      {c : Collector} (k : ℕ) (pk : GoString) (t : ℕ)
      → IsValidOf n c
      → f.worker < n
      → key_of f.ip f.xid ≢ some pk
      → f.ts ≤ t + pending_ttl
      → pending_at c k pk ≡ some t
      → Returns
          (handle_frame {F = F} sha1 r f c)
          λ u. IsValidOf n u.0 × (pending_at u.0 k pk ≡ some t)
  handle_frame-keeps {c} k pk t v lt other young e =
      let (old, q, p) = shard_of c k pk e in
      let (swept, q', s) = sweep-Swept f.ts k v.0 q in
      let (sh, at_shard) = client_shard v in
      let (u, run, h) = handle_frame-Handled v lt at_shard in
      let still : lookup pk swept.pending ≡ some t = s.young pk t young p in
      let at_k : pending_at u.0 k pk ≡ some t = elim (Bool-cases (nat_eqb (shard_index f.ip) k)) [
        | inl here ↦
            let e' : shard_index f.ip ≡ k = ground arith in
            let same : some sh ≡ some swept =
              sym at_shard ∙ ap (get_elem? (sweep f.ts c).shards) e' ∙ q' in
            rw (pending_at-Handled k pk v h, here, handled_shard-keeps pk sh other)
              (ap (pending_in pk) same ∙ still)
        | inr away ↦ rw (pending_at-Handled k pk v h, away, q') still
      ] in
      (u, run, (h.valid, at_k))

  -- a request that finds room is pending afterwards
  pub handle_frame-stores :
      {c : Collector} {sh : Shard} (xid : List ℕ)
      → IsValidOf n c
      → f.worker < n
      → (f.direction == request) ≡ true
      → f.xid ≡ some xid
      → get_elem? c.shards (shard_index f.ip) ≡ some sh
      → length sh.pending < pending_max
      → Returns (handle_frame {F = F} sha1 r f c) λ u.
        IsValidOf n u.0 × (pending_at u.0 (shard_index f.ip) (pending_key f.ip xid) ≡ some f.ts)
  handle_frame-stores {c} {sh} xid v lt q x e room =
      let k : ℕ = shard_index f.ip in
      let pk = pending_key f.ip xid in
      let (swept, q', s) = sweep-Swept f.ts k v.0 e in
      let (u, run, h) = handle_frame-Handled v lt q' in
      let fits : length swept.pending < pending_max = omega (arith, s.shorter) in
      let stored =
        remember-stores F f.ip f.ts (touch {F = F} f.ip r.clock swept).0 xid
          (unfold touch in fits) in
      (u, run, (h.valid, rw (pending_at-Handled k pk v h, eq_self k, q, x) stored))

  -- a response in time observes the latency, and its request is pending no longer
  pub handle_frame-pairs :
      {c : Collector} (xid : List ℕ) (t : ℕ)
      → IsValidOf n c
      → f.worker < n
      → (f.direction == request) ≡ false
      → f.xid ≡ some xid
      → t ≤ f.ts
      → f.ts ≤ t + pending_ttl
      → pending_at c (shard_index f.ip) (pending_key f.ip xid) ≡ some t
      → Returns (handle_frame {F = F} sha1 r f c) λ u.
        (u.1 ≡ capture_packets f.direction ∷ response_latency (f.ts - t) ∷ [])
        × (pending_at u.0 (shard_index f.ip) (pending_key f.ip xid) ≡ none)
  handle_frame-pairs {c} xid t v lt a x after young e =
      let k : ℕ = shard_index f.ip in
      let pk = pending_key f.ip xid in
      let (old, q, p) = shard_of c k pk e in
      let (swept, q', s) = sweep-Swept f.ts k v.0 q in
      let (u, run, h) = handle_frame-Handled v lt q' in
      let still : lookup pk swept.pending ≡ some t = s.young pk t young p in
      (
        u,
        run,
        (
          h.events
              ∙ rw (a, x)
                  (ap (λ (es : List (Event F)). capture_packets f.direction ∷ es)
                    (pair-observes F f.ip f.ts swept xid t still after)),
          rw (pending_at-Handled k pk v h, eq_self k, a, x) (pair-removes F f.ip f.ts swept xid),
        ),
      )
