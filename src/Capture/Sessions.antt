-- ===== src/Capture/Sessions.antt =====
-- exporter/cmd/exporter/main.go: `runCapture`, which opens the sockets of
-- exporter/internal/capture, runs the workers until the stop channel is closed, and closes the
-- sockets. What becomes of the sockets is an argument, as are the reopenings during a run, in
-- their order.
use ntp_server.Base.{
  ℕ, Bool, true, false, Option, none, some, List, [], ◌∷◌, if◌then◌else◌, Run, ok, ◌>>=◌,
}
use ntp_server.Base.Int.{ℤ}
use ntp_server.Capture.Sockets.{
  Attempt, Ledger, Manager, open_manager, reopen_worker, close_manager,
}

-- a call of `NtpClientsScrapeSuccess.Set`, or of `mgrPtr.Store`
pub data Effect : Type 0 where
  scrape_success : Bool → Effect
  store : Option Manager → Effect

-- A round of the loop of `runCapture`: the outcomes of `newSocket` in `Open`, whether the stop
-- channel is closed while a failed round waits, and the reopenings of sockets while a round runs.
pub record Cycle : Type 0 where
  pub attempt : ℕ → Attempt
  pub stopped : Bool
  pub reopens : List (ℕ × Attempt)

unfoldable pub reopen_all : List (ℕ × Attempt) → Manager → Ledger → Run (Manager × Ledger)
reopen_all [] m k = ok (m, k)
reopen_all ((i, attempt) ∷ rest) m k = reopen_worker i attempt m k >>= λ r. reopen_all rest r.1 r.2

-- `runCapture`; the channel is closed when there are no more rounds
unfoldable pub run_capture : ℤ → ℤ → List Cycle → Ledger → Run (List Effect × Ledger)
run_capture ring_bytes num_workers [] k = ok ([], k)
run_capture ring_bytes num_workers (c ∷ cycles) k =
    let (opened, next) = open_manager ring_bytes num_workers c.attempt k in
    elim opened [
      | none ↦
          if c.stopped
          then ok (scrape_success false ∷ [], next)
          else run_capture ring_bytes num_workers cycles next >>= λ r.
              ok (scrape_success false ∷ r.0, r.1)
      | some (m, bytes) ↦ reopen_all c.reopens m next >>= λ r.
          run_capture ring_bytes num_workers cycles (close_manager r.0 r.1) >>= λ rest. ok (
            scrape_success true ∷ store (some m) ∷ store none ∷ scrape_success false ∷ rest.0,
            rest.1,
          )
    ]
