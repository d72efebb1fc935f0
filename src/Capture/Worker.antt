-- ===== src/Capture/Worker.antt =====
-- exporter/internal/capture/manager.go: `ClampWorkers`, and the loop of `RunWorker` on a socket
-- that can fail. Times are in nanoseconds. What a read returns, the time, and whether a reopening
-- of the socket succeeds are arguments of a round of the loop.
use ntp_server.Base.{
  ℕ, ◌+◌, ◌*◌, Bool, true, Option, none, some, List, [], ◌∷◌, ◌++◌, ltb, leb, nat_eqb,
  if◌then◌else◌,
}
use ntp_server.Base.Int.{ℤ, pos, negsuc}

-- `ClampWorkers`
unfoldable pub clamp_workers : ℤ → ℕ
clamp_workers (pos n) = if nat_eqb n 0 then 1 else n
clamp_workers (negsuc n) = 1

abbrev pub loop_err_backoff_min : ℕ
loop_err_backoff_min = 10_000_000

abbrev pub loop_err_backoff_max : ℕ
loop_err_backoff_max = 1_000_000_000

abbrev pub loop_err_log_interval : ℕ
loop_err_log_interval = 1_000_000_000

abbrev pub loop_err_reopen_after : ℕ
loop_err_reopen_after = 32

-- the local variables of the loop; `last_log` is none while it is zero
pub record Worker : Type 0 where
  pub consecutive_errs : ℕ
  pub backoff : ℕ
  pub last_log : Option ℕ

unfoldable pub start : Worker
start = record { consecutive_errs = 0; backoff = loop_err_backoff_min; last_log = none }

-- What `ZeroCopyReadPacketData` returns; with an error, the time, and the outcome of a reopening.
pub data Read : Type 0 where
  timed_out packet : Read
  failed : (now : ℕ) (reopened : Bool) → Read

-- What a round of the loop does: it logs, sleeps, tries to reopen the socket, or handles a frame.
pub data Act : Type 0 where
  logs processes : Act
  sleeps : ℕ → Act
  reopens : Bool → Act

-- `lastLog.IsZero() || time.Since(lastLog) >= loopErrLogInterval`
unfoldable pub log_due : ℕ → Option ℕ → Bool
log_due now none = true
log_due now (some last) = leb (last + loop_err_log_interval) now

-- `backoff *= 2`, at most `loop_err_backoff_max`
unfoldable pub next_backoff : ℕ → ℕ
next_backoff b = if ltb loop_err_backoff_max (b * 2) then loop_err_backoff_max else b * 2

-- one round of the loop of `RunWorker`
unfoldable pub round : Read → Worker → Worker × List Act
round timed_out w = (w, [])
round packet w = (record w { consecutive_errs = 0; backoff = loop_err_backoff_min }, processes ∷ [])
round (failed now reopened) w =
    let errs = w.consecutive_errs + 1 in
    let due = log_due now w.last_log in
    let last = if due then some now else w.last_log in
    let said = if due then logs ∷ [] else [] in
    if leb loop_err_reopen_after errs
    then (
      record { consecutive_errs = 0; backoff = loop_err_backoff_min; last_log = last },
      said ++ (reopens reopened ∷ []),
    )
    else (
      record { consecutive_errs = errs; backoff = next_backoff w.backoff; last_log = last },
      said ++ (sleeps w.backoff ∷ []),
    )

-- one round after another
unfoldable pub rounds : List Read → Worker → Worker × List Act
rounds [] w = (w, [])
rounds (r ∷ reads) w =
    let (w', acts) = round r w in let (w'', later) = rounds reads w' in (w'', acts ++ later)
