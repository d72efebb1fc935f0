-- ===== src/Tests/Sessions.antt =====
-- Runs of `runCapture`, with sockets that fail.
use ntp_server.Base.{ℕ, ◌≡◌, false, List, [], ◌∷◌, arith, ltb, if◌then◌else◌, Returns}
use ntp_server.Base.Int.{pos}
use ntp_server.Capture.Sockets.{no_socket, no_fanout, joined, Ledger}
use ntp_server.Capture.Owned.{occurrences, IsLedger}
use ntp_server.Capture.Sessions.{Cycle, run_capture}
use ntp_server.Capture.Leaks.{gauge_after, run_capture-Owns}

-- another part of the process has socket 3 open
abbrev pub busy : Ledger
busy = record { fresh = 5; held = 3 ∷ [] }

pub busy_lem : IsLedger busy
busy_lem = record { once = λ j. ground arith; given = λ j h. ground arith }

-- the second socket joins no group; then both do, and the first worker reopens its socket
abbrev cycles : List Cycle
cycles =
    record { attempt = λ i. if ltb i 1 then joined else no_fanout; stopped = false; reopens = [] }
    ∷ record { attempt = λ i. joined; stopped = false; reopens = (0, no_socket) ∷ (0, joined) ∷ [] }
    ∷ []

run_capture-Owns_example : Returns (run_capture (pos 67108864) (pos 2) cycles busy) λ r.
    IsLedger r.1
    × ((j : ℕ) → occurrences j r.1.held ≡ occurrences j busy.held)
    × (gauge_after false r.0 ≡ false)
unfolding ntp_server.Capture.Worker.clamp_workers
run_capture-Owns_example =
    run_capture-Owns (pos 67108864) (pos 2) cycles busy busy_lem
      (tt, ((omega arith, (omega arith, tt)), tt))
