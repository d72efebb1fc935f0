-- ===== src/Aggregate/Threads/Uninterrupted.antt =====
-- The calls of exporter/internal/aggregate/aggregate.go, step by step and as a whole.
use ntp_server.Base.{ℕ, ◌≤◌, refl, Bool, List, [], ◌∷◌, Returns}
use mathlib.Core.List.{append-nil}
use ntp_server.Hll.{Floats}
use ntp_server.Base.Order.{Sorts}
use ntp_server.Aggregate.{Collector}
use ntp_server.Aggregate.Asn.{Kv}
use ntp_server.Aggregate.Keeps.{IsValidOf}
use ntp_server.Aggregate.Flush.Total.{Call, frame, flushes, IsCall, run_all}
use ntp_server.Aggregate.Threads.{start_call}
use ntp_server.Aggregate.Threads.Alone.{Alone}
use ntp_server.Aggregate.Threads.AloneFrame.{handle_frame-Alone}
use ntp_server.Aggregate.Threads.AloneFlush.{flush-Alone}

module _ (F : Type 0) (sha1 : List ℕ → List ℕ) (fl : Floats F)
    (sort : (Kv → Kv → Bool) → List Kv → List Kv) (sorts : Sorts sort) where
  -- For any call of `HandleFrame`, for a worker that exists, or of `Flush`, on any valid
  -- collector with at least one worker, and for any answers of its surroundings: the call as a
  -- whole returns, and the steps of a goroutine through the call that no other goroutine
  -- interrupts end in the same state, with the same calls on the metrics in the same order.
  pub call-Alone :
      (call : Call) {n : ℕ} {c : Collector}
      → 1 ≤ n
      → IsCall n call
      → IsValidOf n c
      → Returns
          (run_all F sha1 fl sort sorts (call ∷ []) c)
          (λ u. Alone sha1 fl sort (start_call call) c u.0 u.1)
  unfolding run_all start_call
  call-Alone (frame r f) some_worker lt v =
      let (u, run, a) = handle_frame-Alone sha1 fl sort r f v lt in
      (u, rw (run, append-nil u.1) refl, a)
  call-Alone (flushes r) some_worker lt v =
      let (u, run, a) = flush-Alone sha1 fl sort sorts r some_worker v in
      ((u.0, u.2), rw (run, append-nil u.2) refl, a)
