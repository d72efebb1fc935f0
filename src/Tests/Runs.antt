-- ===== src/Tests/Runs.antt =====
-- The goroutines of two workers.
use ntp_server.Base.{◌≡◌, refl, ok, [], ◌∷◌, arith, Returns, true, replicate}
use ntp_server.Capture.Running.{
  Waiting, ended, Reaches, started, left, closes, start_run, leave, close_done, all_ended,
  Reaches-closed,
}

abbrev over : Waiting
over = record { goroutines = ended ∷ ended ∷ []; running = 0; closed = true }

over_run : Reaches 2 (ok over)
unfolding start_run leave close_done replicate
over_run = closes 0 (left 0 (left 1 started refl) refl) refl

Reaches-closed_example : Returns (ok over) (λ s. s.closed ≡ all_ended s.goroutines)
Reaches-closed_example = Reaches-closed (omega arith) (omega arith) over_run
