-- ===== src/Metrics/Runs.antt =====
-- The calls of `HandleFrame` and `Flush` of exporter/internal/aggregate/aggregate.go, in any
-- order, fit exporter/internal/metrics/metrics.go.
use ntp_server.Base.{
  ℕ, ◌<◌, ◌≡◌, ◌⊎◌, refl, inl, inr, Bool, true, false, Option, none, some, List, [], ◌∷◌, ◌++◌, All,
  All-get, All-set, All-imp, All-append, All-replicate, GoString, string_eq, if◌then◌else◌, max,
  Returns,
}
use ntp_server.Base.Order.{Sorts}
use ntp_server.Hll.{Floats}
use ntp_server.Frame.{NetLib, parse_ntp_frame, Parsed}
use ntp_server.Frame.Access.{accept, Ensures}
use ntp_server.Frame.Safety.{IsVersion}
use ntp_server.Capture.Filter.{frame_of}
use ntp_server.Aggregate.{Collector, Event, country_key_eq, new, new_worker_counters}
use ntp_server.Aggregate.Asn.{Kv}
use ntp_server.Aggregate.Handle.{Frame, Reading, handle_frame}
use ntp_server.Aggregate.Keeps.{IsValidOf, new-IsValidOf}
use ntp_server.Aggregate.Flush.{FlushReading, flush, flush_maps, snapshot, read_drops, publish}
use ntp_server.Aggregate.Flush.Valid.{flush_lem}
use ntp_server.Aggregate.Flush.Steps.{counted, handle_frame-Writes}
use ntp_server.Aggregate.Flush.Total.{Call, frame, flushes, run_all}
use ntp_server.Metrics.Calls.{call_of}
use ntp_server.Metrics.Keys.{
  IsLabelled, HasLabels, counted-HasLabels, snapshot-HasLabels, reset-HasLabels,
}
use ntp_server.Metrics.Fitting.{Fits, Labelled, call_of-Fits}
use ntp_server.Metrics.Events.{
  AllLabelled, later_events-AllLabelled, read_drops-AllLabelled, publish-AllLabelled,
}
use ntp_server.Frame.Safety.{parse_ntp_frame-Ensures, HasPayload, IsWellFormed}

-- the frame that `ProcessFrame` hands over for the bytes that it has got
abbrev pub FromWire : NetLib → Frame → Type 0
FromWire net f =
    (bytes_read : List ℕ) × (p : Parsed) × (parse_ntp_frame net bytes_read ≡ accept p)
    × (f ≡ frame_of net f.worker f.ts p)

-- frames that come from the network, of workers that exist
abbrev pub IsRead : NetLib → ℕ → Call → Type 0
IsRead net n (frame r f) = (f.worker < n) × FromWire net f
IsRead net n (flushes r) = Unit

IsVersion-of_payload :
    (b : Bool) (v : GoString) (x : Option (List ℕ))
    → HasPayload b v x
    → ((if b then v else []) ≡ []) ⊎ IsVersion (if b then v else [])
IsVersion-of_payload false v x h = inl refl
IsVersion-of_payload true v (some x) h = inr h.0
IsVersion-of_payload true v none h = absurd h

frame_of-IsLabelled :
    (net : NetLib) (worker ts : ℕ) (p : Parsed)
    → IsWellFormed p
    → IsLabelled (frame_of net worker ts p)
unfolding frame_of
frame_of-IsLabelled net worker ts p w = record {
  direction = w.direction;
  family = elim w.addresses [ inl four ↦ inl four.0 | inr six ↦ inr six.0 ];
  version = IsVersion-of_payload p.has_version p.version p.xid w.payload;
}

FromWire-IsLabelled : (net : NetLib) (f : Frame) → FromWire net f → IsLabelled f
FromWire-IsLabelled net f (read, p, parsed, e) =
    let w : Ensures IsWellFormed (parse_ntp_frame net read) = parse_ntp_frame-Ensures net read in
    rw e (frame_of-IsLabelled net f.worker f.ts p (rw parsed at w))

module _ (F : Type 0) (net : NetLib) (sha1 : List ℕ → List ℕ) (fl : Floats F)
    (sort : (Kv → Kv → Bool) → List Kv → List Kv) (sorts : Sorts sort) where
  -- a valid collector whose maps have only labels of frames, and events with such labels
  abbrev Stands : ℕ → Collector → List (Event F) → Type 0
  Stands n c events = IsValidOf n c × All HasLabels c.workers × AllLabelled F events

  handle_frame-Stands :
      (r : Reading) (f : Frame) {n : ℕ} {c : Collector}
      → IsValidOf n c
      → All HasLabels c.workers
      → (f.worker < n) × FromWire net f
      → Returns (handle_frame sha1 r f c) λ u. Stands n u.0 u.1
  handle_frame-Stands r f {n} {c} v all (lt, wire) =
      let (u, run, (valid, wc, sh, at, workers, events)) = handle_frame-Writes F sha1 r f v lt in
      let l = FromWire-IsLabelled net f wire in
      (
        u,
        run,
        (
          valid,
          rw workers (
              All-set HasLabels c.workers f.worker (counted F sha1 r f wc)
                (counted-HasLabels F sha1 r f wc l (All-get HasLabels c.workers f.worker at all))
                all),
          rw events (l.direction, later_events-AllLabelled F sha1 r f sh),
        ),
      )

  flush-Stands :
      (r : FlushReading) {n : ℕ} {c : Collector}
      → IsValidOf n c
      → All HasLabels c.workers
      → Returns (flush sort fl r c) λ u. Stands n u.0 u.2
  unfolding flush_maps
  flush-Stands r {n} {c} v all =
      let (u, run, (w, e, (h, merged, (events, same)))) = flush_lem sort sorts fl r v in
      let snap = snapshot new_worker_counters c.workers in
      (
        u,
        run,
        (
          w,
          rw e (reset-HasLabels c.workers),
          rw events (
              All-append Labelled _ _
                (All-append Labelled (read_drops r.drops r.last_drops).1
                  (publish sort c.asn_top_n (flush_maps sort r c).asn_totals snap)
                  (read_drops-AllLabelled F r.drops r.last_drops)
                  (publish-AllLabelled F sort c.asn_top_n (flush_maps sort r c).asn_totals snap
                    (snapshot-HasLabels new_worker_counters c.workers (tt, tt) all)))
                (tt, (tt, tt))),
        ),
      )

  run_all-Stands :
      (calls : List Call) {n : ℕ} {c : Collector}
      → IsValidOf n c
      → All HasLabels c.workers
      → All (IsRead net n) calls
      → Returns (run_all F sha1 fl sort sorts calls c) λ u. AllLabelled F u.1
  unfolding run_all
  run_all-Stands [] v all reads = ((_, []), refl, tt)
  run_all-Stands (frame r f ∷ calls) v all reads =
      let (u, run, (w, all', es)) = handle_frame-Stands r f v all reads.0 in
      let (z, later, ds) = run_all-Stands calls w all' reads.1 in
      ((z.0, u.1 ++ z.1), rw (run, later), All-append Labelled u.1 z.1 es ds)
  run_all-Stands (flushes r ∷ calls) v all reads =
      let (u, run, (w, all', es)) = flush-Stands r v all in
      let (z, later, ds) = run_all-Stands calls w all' reads.1 in
      ((z.0, u.2 ++ z.1), rw (run, later), All-append Labelled u.2 z.1 es ds)

  -- From a new collector, whatever bytes the frames have, for workers that exist, whatever the
  -- resolver and the clocks answer and whenever it is flushed: nothing panics, and each call on a
  -- metric is one that the registry has under its name, with a value for each of its labels, and
  -- with a method of its kind. Packets are counted only in the two series that are there from the
  -- start, and the requests in at most five series by version and two by family.
  pub run_all-Fits :
      (asn_top_n num_workers : ℕ) (calls : List Call)
      → All (IsRead net (max num_workers 1)) calls
      → Returns
          (run_all F sha1 fl sort sorts calls (new asn_top_n num_workers))
          λ u. All (λ e. Fits (call_of e)) u.1
  unfolding new
  run_all-Fits asn_top_n num_workers calls reads =
      let n : ℕ = max num_workers 1 in
      let v = new-IsValidOf asn_top_n num_workers in
      let empty = All-replicate HasLabels n new_worker_counters (tt, tt) in
      let (u, run, labelled) = run_all-Stands calls v empty reads in
      (u, run, All-imp Labelled (λ e. Fits (call_of e)) u.1 call_of-Fits labelled)
