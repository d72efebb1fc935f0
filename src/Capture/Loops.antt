-- ===== src/Capture/Loops.antt =====
-- exporter/internal/capture/manager.go: the loops of `RunWorker`, one for each socket, which run
-- at the same time as each other and as `KernelDrops`. A step is a check of the stop channel, a
-- read, the opening, the exchange or the closing of a socket, or a sleep. What a read returns,
-- and what becomes of `newSocket`, is part of a step.
use ntp_server.Base.{
  ℕ, ◌+◌, ◌≡◌, Bool, true, false, none, some, List, map, get_elem?, set, leb, if◌then◌else◌, Run,
  ok, ◌>>=◌, or_panic,
}
use ntp_server.Capture.Sockets.{Attempt, Ledger, Manager, new_socket, close_in}
use ntp_server.Capture.Worker.{
  Worker, start, timed_out, packet, failed, round, loop_err_reopen_after,
}

-- Where a loop stands: at its top, in a read, in a sleep, with a new socket in `reopenWorker`,
-- with the old one and the new one, or at its end.
pub data Stage : Type 0 where
  top reading sleeping ended : Stage
  swapping : ℕ → Stage
  closing : ℕ → ℕ → Stage

-- a goroutine, with its variable `sock` and those of Capture/Worker
pub record Looper : Type 0 where
  pub stage : Stage
  pub sock : ℕ
  pub locals : Worker

-- The manager's sockets, all that is open, the goroutines, and whether the stop channel is closed.
pub record Capturing : Type 0 where
  pub sockets : List ℕ
  pub ledger : Ledger
  pub loopers : List Looper
  pub stopped : Bool

pub data Happening : Type 0 where
  checks times_out gets_packet swaps closes wakes stops : Happening
  fails : (now : ℕ) → Attempt → Happening

-- `Run` starts the goroutines. Each begins with the socket of its index, which only it replaces.
unfoldable pub start_loops : Manager → Ledger → Capturing
start_loops m k = record {
  sockets = m.sockets;
  ledger = k;
  loopers = map (λ s. record { stage = top; sock = s; locals = start }) m.sockets;
  stopped = false;
}

abbrev pub put_looper : ℕ → Looper → Capturing → Capturing
put_looper i l s = record s { loopers = set s.loopers i l }

-- a read fails, and a new socket may be due
unfoldable pub fail_read : ℕ → Attempt → ℕ → Looper → Capturing → Capturing
fail_read now attempt i l s =
    let (socket, next) = new_socket attempt s.ledger in
    if leb loop_err_reopen_after (l.locals.consecutive_errs + 1)
    then elim socket [
      | none ↦
          put_looper i (record l { stage = top; locals = (round (failed now false) l.locals).0 })
            (record s { ledger = next })
      | some new ↦
          put_looper i
            (record l { stage = swapping new; locals = (round (failed now true) l.locals).0 })
            (record s { ledger = next })
    ]
    else put_looper i
        (record l { stage = sleeping; locals = (round (failed now false) l.locals).0 }) s

-- A step of the goroutine of index `i`; a happening that does not fit its stage changes nothing.
unfoldable pub loop_step : Happening → Stage → ℕ → Looper → Capturing → Run Capturing
loop_step checks top i l s =
    ok (put_looper i (record l { stage = if s.stopped then ended else reading }) s)
loop_step times_out reading i l s =
    ok (put_looper i (record l { stage = top; locals = (round timed_out l.locals).0 }) s)
loop_step gets_packet reading i l s =
    ok (put_looper i (record l { stage = top; locals = (round packet l.locals).0 }) s)
loop_step (fails now attempt) reading i l s = ok (fail_read now attempt i l s)
loop_step swaps (swapping new) i l s = do
  old ← or_panic (get_elem? s.sockets i)
  ok (
      put_looper i (record l { stage = closing old new })
        (record s { sockets = set s.sockets i new }))
loop_step closes (closing old new) i l s = ok (
    put_looper i (record l { stage = top; sock = new })
      (record s { ledger = close_in old s.ledger }))
loop_step wakes sleeping i l s = ok (put_looper i (record l { stage = top }) s)
loop_step stops sleeping i l s =
    ok (put_looper i (record l { stage = if s.stopped then ended else sleeping }) s)
loop_step h g i l s = ok s

-- `main` closes the stop channel
unfoldable pub stop_loops : Capturing → Capturing
stop_loops s = record s { stopped = true }

-- `Loops m k r`: with the manager `m` and the sockets `k` open, the goroutines of `Run` can reach
-- `r`, a state or a panic, in any order of their steps.
pub data Loops (m : Manager) (k : Ledger) : Run Capturing → Type 0 where
  begun : Loops m k (ok (start_loops m k))
  halts : {s : Capturing} → Loops m k (ok s) → Loops m k (ok (stop_loops s))
  steps :
      {s : Capturing} (i : ℕ) (l : Looper) (h : Happening)
      → Loops m k (ok s)
      → get_elem? s.loopers i ≡ some l
      → Loops m k (loop_step h l.stage i l s)
