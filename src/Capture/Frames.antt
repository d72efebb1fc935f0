-- ===== src/Capture/Frames.antt =====
-- What `ProcessFrame` of exporter/internal/capture/filter.go makes of a frame, from its bytes to
-- the counters of the collector.
use ntp_server.Base.{
  ℕ, ◌+◌, ◌<◌, ◌≡◌, refl, Bool, false, ◌&&◌, List, [], ◌∷◌, map, arith, inl, inr, Bool-cases, ◌==◌,
  nat_eq, string_eq, list_eqb, if◌then◌else◌, Returns,
}
use ntp_server.Frame.{NetLib, Parsed, request, response, parse_ntp_frame, ntp_port}
use ntp_server.Frame.Access.{Outcome, accept, reject, fault, Ensures}
use ntp_server.Frame.Safety.{IsWellFormed, parse_ntp_frame-Ensures}
use ntp_server.Frame.Wire.{Packet, IsPacket, encode, describe, reading}
use ntp_server.Frame.Encode.{parse_ntp_frame-encode}
use ntp_server.Aggregate.{Collector}
use ntp_server.Aggregate.Keeps.{IsValidOf}
use ntp_server.Aggregate.Flush.Ledger.{Series, waiting}
use ntp_server.Aggregate.Flush.Steps.{handle_frame-Counted}
use ntp_server.Capture.LocalAddresses.{LocalIps, contains}
use ntp_server.Capture.Filter.{
  Surroundings, parse_error, collected, frame_of, should_accept, process_frame,
}

module _ (F : Type 0) (net : NetLib) (sha1 : List ℕ → List ℕ) (s : Surroundings) (worker ts : ℕ)
    (l : LocalIps) {n : ℕ} {c : Collector} (v : IsValidOf n c) (lt : worker < n) where
  -- the collector counts one request, or none
  abbrev pub Adds : Bool → Collector → Type 0
  Adds b d = (q : Series) → waiting q d.workers ≡ waiting q c.workers + (if b then 1 else 0)

  -- an accepted frame
  accept-Adds :
      (frame : List ℕ) (p : Parsed)
      → parse_ntp_frame net frame ≡ accept p
      → Returns (process_frame {F = F} net sha1 s worker ts frame l c) λ u.
        IsValidOf n u.0 × Adds ((p.direction == request) && (should_accept net s.look l p).1) u.0
  unfolding process_frame frame_of
  accept-Adds frame p e = elim (Bool-cases (should_accept net s.look l p).1) [
    | inl counts ↦
        let (u, run, (w, adds)) =
          handle_frame-Counted F sha1 s.reading (frame_of net worker ts p) v lt in
        (
          (u.0, (should_accept net s.look l p).0, map collected u.1),
          rw (process_frame, e, counts, run),
          (w, λ q. rw counts (ground (arith, (adds q).0))),
        )
    | inr drops ↦ (
      (c, (should_accept net s.look l p).0, []),
      rw (process_frame, e, drops),
      (v, λ q. rw drops (ground arith)),
    )
  ]

  -- `ProcessFrame` on a valid collector, for a worker that exists, never panics, whatever the
  -- bytes of the frame and the answers of the surroundings: the collector stays valid, and either
  -- one request is counted in all four series or none is.
  pub process_frame-IsValid :
      (frame : List ℕ)
      → Returns
          (process_frame {F = F} net sha1 s worker ts frame l c)
          λ u. IsValidOf n u.0 × ((b : Bool) × Adds b u.0)
  unfolding process_frame
  process_frame-IsValid frame =
      by_outcome (parse_ntp_frame net frame) refl (parse_ntp_frame-Ensures net frame)
    where
      by_outcome :
          (o : Outcome Parsed)
          → parse_ntp_frame net frame ≡ o
          → Ensures IsWellFormed o
          → Returns
              (process_frame {F = F} net sha1 s worker ts frame l c)
              λ u. IsValidOf n u.0 × ((b : Bool) × Adds b u.0)
      by_outcome fault e h = absurd h
      by_outcome reject e h =
          ((c, l, parse_error ∷ []), rw (process_frame, e), (v, (false, λ q. omega arith)))
      by_outcome (accept p) e h =
          let (u, run, (w, adds)) = accept-Adds frame p e in (u, run, (w, (_, adds)))

  -- From the bytes to the counters: for every UDP packet over IPv4 or IPv6, VLAN-tagged or not,
  -- with fields of the right widths, `ProcessFrame` on its frame counts one request in each of
  -- the four series if the packet goes to port 123 of an address of this host, and nothing
  -- otherwise: not responses, nor requests of this host to other servers, nor packets that are
  -- not NTP.
  pub process_frame-encode :
      (p : Packet)
      → IsPacket p
      → Returns (process_frame {F = F} net sha1 s worker ts (encode p) l c) λ u.
        IsValidOf n u.0
        × ((q : Series)
            → waiting q u.0.workers
              ≡ waiting q c.workers
                + (if (p.dport == ntp_port) && (contains net s.look l p.dst).1 then 1 else 0))
  unfolding describe should_accept list_eqb process_frame
  process_frame-encode p w =
      let read = parse_ntp_frame-encode net p w in
      elim (Bool-cases (p.dport == ntp_port)) [
        | inl asks ↦
            let (u, run, (valid, adds)) =
              accept-Adds (encode p) (reading net p request p.src 40) (rw asks at read) in
            (u, run, (valid, λ q. rw asks (adds q)))
        | inr no_request ↦ elim (Bool-cases (p.sport == ntp_port)) [
          | inl answers ↦
              let (u, run, (valid, adds)) =
                accept-Adds (encode p) (reading net p response p.dst 24)
                  (rw (no_request, answers) at read) in
              (u, run, (valid, λ q. rw no_request (adds q)))
          | inr neither ↦
              let nothing : parse_ntp_frame net (encode p) ≡ reject =
                rw (no_request, neither) at read in
              (
                (c, l, parse_error ∷ []),
                rw (process_frame, nothing),
                (v, λ q. rw no_request (omega arith)),
              )
        ]
      ]
