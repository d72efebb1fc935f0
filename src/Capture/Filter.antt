-- ===== src/Capture/Filter.antt =====
-- exporter/internal/capture/filter.go: the direction filter and the body of the capture loop.
use ntp_server.Base.{
  ℕ, Bool, not, List, [], ◌∷◌, map, ◌==◌, string_eq, if◌then◌else◌, Run, ok, panic, ◌>>=◌,
}
use ntp_server.Frame.{NetLib, Parsed, request, parse_ntp_frame}
use ntp_server.Frame.Access.{accept, reject, fault}
use ntp_server.Aggregate.{Collector, Event}
use ntp_server.Aggregate.Handle.{Frame, Reading, handle_frame}
use ntp_server.Capture.LocalAddresses.{LocalIps, Lookup, contains}

-- `ShouldAccept`
unfoldable pub should_accept : NetLib → Lookup → LocalIps → Parsed → LocalIps × Bool
should_accept net look l p =
    if p.direction == request then contains net look l p.dst_ip else contains net look l p.src_ip

-- The calls on the metrics: a frame that cannot be parsed, or those of the collector.
pub data CaptureEvent (F : Type 0) : Type 0 where
  parse_error : CaptureEvent F
  collected : Event F → CaptureEvent F

-- the call of `HandleFrame` for a parsed frame
unfoldable pub frame_of : NetLib → ℕ → ℕ → Parsed → Frame
frame_of net worker ts p = record {
  worker = worker;
  direction = p.direction;
  ip = net.to_string p.ip;
  family = p.family;
  version = if p.has_version then p.version else [];
  xid = p.xid;
  ts = ts;
}

-- What the surroundings answer during a call of `ProcessFrame`.
pub record Surroundings : Type 0 where
  pub look : Lookup
  pub reading : Reading

module _ {F : Type 0} (net : NetLib) (sha1 : List ℕ → List ℕ) where
  -- `ProcessFrame`
  unfoldable pub process_frame :
      Surroundings
      → ℕ
      → ℕ
      → List ℕ
      → LocalIps
      → Collector
      → Run (Collector × LocalIps × List (CaptureEvent F))
  process_frame s worker ts frame l c = elim (parse_ntp_frame net frame) [
    | fault ↦ panic
    | reject ↦ ok (c, l, parse_error ∷ [])
    | accept p ↦
        let (l', accepted) = should_accept net s.look l p in
        if not accepted then ok (c, l', []) else (do
          (c', events) ← handle_frame sha1 s.reading (frame_of net worker ts p) c
          ok (c', l', map collected events))
  ]
