-- ===== src/Main/Started.antt =====
-- What exporter/cmd/exporter/main.go starts fits together: each socket of the capture has its
-- worker in the collector.
use ntp_server.Base.{
  ℕ, ◌<◌, ◌≡◌, ◌∙◌, sym, refl, ap, some, List, [], ◌∷◌, ◌++◌, All, arith, length, max, Run, ok,
  ◌>>=◌, Returns, bytes, string_eq,
}
use ntp_server.Base.Int.{ℤ, pos, negsuc}
use ntp_server.Frame.{NetLib}
use ntp_server.Aggregate.{Collector}
use ntp_server.Aggregate.Keeps.{IsValidOf, new-IsValidOf}
use ntp_server.Capture.Worker.{clamp_workers}
use ntp_server.Capture.LocalAddresses.{LocalIps}
use ntp_server.Capture.Filter.{Surroundings, CaptureEvent, process_frame}
use ntp_server.Capture.Frames.{process_frame-IsValid}
use ntp_server.Capture.Sockets.{Attempt, Ledger, Manager, open_manager}
use ntp_server.Capture.Owned.{IsLedger}
use ntp_server.Capture.Leaks.{open_manager-IsManaged}
use ntp_server.Main.{
  Environment, Config, config, start_collector, start_capture, at_least_zero, getenv_int,
}

-- a frame that a worker has read, with the time and what the surroundings answer
pub record Arrival : Type 0 where
  pub surroundings : Surroundings
  pub worker : ℕ
  pub ts : ℕ
  pub data_read : List ℕ

module _ (F : Type 0) (net : NetLib) (sha1 : List ℕ → List ℕ) where
  -- `ProcessFrame` for one frame after the other
  unfoldable pub process_all :
      List Arrival → LocalIps → Collector → Run (Collector × LocalIps × List (CaptureEvent F))
  process_all [] l c = ok (c, l, [])
  process_all (a ∷ later_ones) l c = do
    (c', l', events) ← process_frame net sha1 a.surroundings a.worker a.ts a.data_read l c
    (c'', l'', later) ← process_all later_ones l' c'
    ok (c'', l'', events ++ later)

  process_all-IsValid :
      (arrivals : List Arrival) (l : LocalIps) {n : ℕ} {c : Collector}
      → IsValidOf n c
      → All (λ a. a.worker < n) arrivals
      → Returns (process_all arrivals l c) λ u. IsValidOf n u.0
  unfolding process_all
  process_all-IsValid [] l v inside = (_, refl, v)
  process_all-IsValid (a ∷ later_ones) l v inside =
      let (u, run, (w, adds)) =
        process_frame-IsValid F net sha1 a.surroundings a.worker a.ts l v inside.0 a.data_read in
      let (z, later, done) = process_all-IsValid later_ones u.1 w inside.1 in
      ((z.0, z.1, u.2 ++ z.2), rw (run, later), done)

-- at least one worker, so `Open` counts as many as the collector has
clamp_workers_idem : (z : ℤ) → clamp_workers (pos (clamp_workers z)) ≡ clamp_workers z
unfolding clamp_workers
clamp_workers_idem (pos n) = ground arith
clamp_workers_idem (negsuc n) = refl

max-clamp_workers : (z : ℤ) → max (clamp_workers z) 1 ≡ clamp_workers z
unfolding clamp_workers
max-clamp_workers (pos n) = ground arith
max-clamp_workers (negsuc n) = refl

start_capture_lem :
    (c : Config) (workers : ℕ) (ring_bytes : ℤ)
    → start_capture c ≡ some (workers, ring_bytes)
    → (workers ≡ c.capture_workers) × (ring_bytes ≡ c.capture_ring_bytes)
unfolding start_capture
start_capture_lem c workers ring_bytes e = ground arith

-- Whatever the environment says, and whichever sockets can be opened: when capture is enabled and
-- `Open` succeeds with what `main` hands to it, frames that are read from the sockets, by the
-- index of the socket, whatever their bytes, are all handled by the collector that `main` has
-- started, without a panic, and leave it valid.
pub started-IsValid :
    (F : Type 0) (net : NetLib) (sha1 : List ℕ → List ℕ) (env : Environment) {workers : ℕ}
    {ring_bytes : ℤ} (attempt : ℕ → Attempt) (k₀ : Ledger) {m : Manager} {bytes_used : ℕ}
    {k : Ledger} (arrivals : List Arrival) (l : LocalIps)
    → IsLedger k₀
    → start_capture (config env) ≡ some (workers, ring_bytes)
    → open_manager ring_bytes (pos workers) attempt k₀ ≡ (some (m, bytes_used), k)
    → All (λ a. a.worker < length m.sockets) arrivals
    → Returns
        (process_all F net sha1 arrivals l (start_collector (config env)))
        λ u. IsValidOf (length m.sockets) u.0
unfolding start_collector config
started-IsValid F net sha1 env {workers} {ring_bytes} attempt k₀ {m} {bytes_used} {k} arrivals l w
      started opened inside =
    let (same, ring) = start_capture_lem (config env) workers ring_bytes started in
    let managed = open_manager-IsManaged ring_bytes (pos workers) attempt k₀ w in
    let (w', owns, size) = rw opened at managed in
    let z : ℤ = getenv_int env (bytes "NTP_CAPTURE_WORKERS") (pos 4) in
    let count : length m.sockets ≡ max (config env).capture_workers 1 =
      size
      ∙ ap (λ n. clamp_workers (pos n)) same
      ∙ clamp_workers_idem z
      ∙ sym (max-clamp_workers z) in
    let v = new-IsValidOf (at_least_zero (config env).asn_top_n) (config env).capture_workers in
    rw count (process_all-IsValid F net sha1 arrivals l v (rw count at inside))
