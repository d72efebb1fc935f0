-- ===== src/Capture/Leaks.antt =====
-- `runCapture` of exporter/cmd/exporter/main.go leaves no socket open.
use ntp_server.Base.{
  ℕ, ◌<◌, ◌≡◌, refl, inl, inr, Bool, false, Option, none, some, List, [], ◌∷◌, length, Bool-cases,
  Option-cases, arith, Returns, All,
}
use ntp_server.Base.Int.{ℤ}
use ntp_server.Capture.Worker.{clamp_workers}
use ntp_server.Capture.Sockets.{Attempt, Ledger, Manager, open_loop, open_manager, close_manager}
use ntp_server.Capture.Owned.{
  occurrences, IsLedger, Owns, open_loop-IsOpened, reopen_worker-Owns, close_all-IsLedger,
  close_all-Owns,
}
use ntp_server.Capture.Sessions.{Effect, scrape_success, store, Cycle, reopen_all, run_capture}

-- Each reopening is of one of the workers.
abbrev pub IsCycle : ℕ → Cycle → Type 0
IsCycle workers c = All (λ r. r.0 < workers) c.reopens

-- `Open` opens a socket for each worker, or leaves none open.
abbrev pub IsManaged : Ledger → ℕ → Option (Manager × ℕ) → Ledger → Type 0
IsManaged k₀ workers none next = IsLedger next × Owns k₀ [] next
IsManaged k₀ workers (some (m, bytes)) next =
    IsLedger next × Owns k₀ m.sockets next × (length m.sockets ≡ workers)

pub open_manager-IsManaged :
    (ring_bytes num_workers : ℤ) (attempt : ℕ → Attempt) (k : Ledger)
    → IsLedger k
    → IsManaged k
        (clamp_workers num_workers)
        (open_manager ring_bytes num_workers attempt k).0
        (open_manager ring_bytes num_workers attempt k).1
unfolding open_manager
open_manager-IsManaged ring_bytes num_workers attempt k v =
    let workers = clamp_workers num_workers in
    let loop = open_loop-IsOpened attempt k workers 0 [] k v (λ j. omega arith) in
    elim (Option-cases (open_loop attempt workers 0 [] k).0) [
      | inl failed ↦ rw (open_manager, failed) (rw failed at loop)
      | inr (sockets, e) ↦
          let (w, owns, size) = rw e at loop in rw (open_manager, e) (w, owns, omega (arith, size))
    ]

reopen_all-Owns :
    (k₀ : Ledger) (reopens : List (ℕ × Attempt)) (m : Manager) (k : Ledger)
    → All (λ r. r.0 < length m.sockets) reopens
    → IsLedger k
    → Owns k₀ m.sockets k
    → Returns (reopen_all reopens m k) λ r. IsLedger r.1 × Owns k₀ r.0.sockets r.1
unfolding reopen_all
reopen_all-Owns k₀ [] m k inside v h = (_, refl, (v, h))
reopen_all-Owns k₀ ((i, attempt) ∷ rest) m k inside v h =
    let (r, e, (w, owns, same)) = reopen_worker-Owns k₀ i attempt m k inside.0 v h in
    rw e (reopen_all-Owns k₀ rest r.1 r.2 (rw same inside.1) w owns)

-- what the gauge shows after the effects
abbrev pub gauge_after : Bool → List Effect → Bool
gauge_after b [] = b
gauge_after b (scrape_success c ∷ effects) = gauge_after c effects
gauge_after b (store m ∷ effects) = gauge_after b effects

-- Whatever fails in whatever round: `runCapture` does not panic, and when it returns, the sockets
-- that are open are those that were open when it began, and the gauge shows 0.
pub run_capture-Owns :
    (ring_bytes num_workers : ℤ) (cycles : List Cycle) (k : Ledger)
    → IsLedger k
    → All (IsCycle (clamp_workers num_workers)) cycles
    → Returns (run_capture ring_bytes num_workers cycles k) λ r.
      IsLedger r.1
      × ((j : ℕ) → occurrences j r.1.held ≡ occurrences j k.held)
      × (gauge_after false r.0 ≡ false)
unfolding run_capture close_manager
run_capture-Owns ring_bytes num_workers [] k v inside = (_, refl, (v, (λ j. refl), refl))
run_capture-Owns ring_bytes num_workers (c ∷ cycles) k v inside =
    let (opened, next) = open_manager ring_bytes num_workers c.attempt k in
    let managed = open_manager-IsManaged ring_bytes num_workers c.attempt k v in
    elim (Option-cases opened) [
      | inl failed ↦
          let (w, none_left) = rw failed at managed in
          elim (Bool-cases c.stopped) [
            | inl ended ↦
                rw (run_capture, failed, ended)
                  (_, refl, (w, (λ j. omega (arith, none_left j)), refl))
            | inr waits ↦
                let (r, e, (x, same, shown)) =
                  run_capture-Owns ring_bytes num_workers cycles next w inside.1 in
                rw (run_capture, failed, waits, e)
                  (_, refl, (x, (λ j. omega (arith, none_left j, same j)), shown))
          ]
      | inr ((m, bytes), e) ↦
          let (w, owns, size) = rw e at managed in
          let (r, ran, (x, kept)) = reopen_all-Owns k c.reopens m next (rw size inside.0) w owns in
          let closed = close_manager r.0 r.1 in
          let none_left = close_all-Owns k r.0.sockets r.1 x kept in
          let (rest, ended, (y, same, shown)) =
            run_capture-Owns ring_bytes num_workers cycles closed
              (close_all-IsLedger r.0.sockets r.1 x) inside.1 in
          rw (run_capture, e, ran, ended)
            (_, refl, (y, (λ j. omega (arith, none_left j, same j)), shown))
    ]
