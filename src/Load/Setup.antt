-- ===== src/Load/Setup.antt =====
-- scripts/ntp-load/main.go: `resolveServer`, `run` up to the start of its goroutines, and the exit
-- status of `main`. Package `net`, and the arithmetic of the rate, are parameters.
use ntp_server.Base.{
  ℕ, zero, suc, ◌+◌, ◌/◌, ◌%◌, ◌^◌, Bool, true, false, Run, ok, panic, ◌>>=◌, Option, none, some,
  List, [], ◌∷◌, ◌++◌, ltb, GoString, bytes, ◌==◌, string_eq, if◌then◌else◌,
}
use ntp_server.Base.Int.{ℤ, pos, negsuc}
use ntp_server.Load.Report.{Stats}

-- `Config`
pub record Config (F : Type 0) : Type 0 where
  pub server : GoString
  pub rate : F
  pub duration : ℕ
  pub workers : ℤ
  pub timeout : ℕ

-- What `run` uses of package `net` and of the runtime: whether `SplitHostPort` and `ResolveUDPAddr`
-- succeed, what call number `i` of `DialUDP` returns, whether `make` of a slice for `n` workers
-- returns or panics, and whether `make([]time.Duration, 0, n)` does for the bits of `n`.
pub record NetCalls (S : Type 0) : Type 0 where
  pub splits : GoString → Bool
  pub resolves : GoString → Bool
  pub dial : ℕ → Option S
  pub has_room : ℕ → Bool
  pub makes : ℕ → Bool

-- `at_most_0 x` is `x <= 0`, which is false of a NaN, `estimate x d` is `uint64(x*d.Seconds())`,
-- `share x n` is `x / float64(n)`, `nanos_per x` is `time.Duration(float64(time.Second) / x)`, and
-- `over_1 x` is `x > 1.0`.
pub record RateLib (F : Type 0) : Type 0 where
  pub one_float : F
  pub at_most_0 : F → Bool
  pub estimate : F → ℕ → ℕ
  pub share : F → ℕ → F
  pub nanos_per : F → ℤ
  pub over_1 : F → Bool

pub data RunError : Type 0 where
  bad_rate bad_server unresolved : RunError
  not_dialed : ℕ → RunError

-- The sockets of all workers; or the call that failed, and the sockets closed for it.
pub data Dialed (S : Type 0) : Type 0 where
  opened : List S → Dialed S
  closed : ℕ → List S → Dialed S

-- `resolveServer`; none is an error
unfoldable pub resolve_server : (GoString → Bool) → GoString → Option GoString
resolve_server splits addr =
    if splits addr
    then some addr
    else if splits (addr ++ bytes ":123")
    then some (addr ++ bytes ":123")
    else none

-- `cfg.Workers` after the test against 1
unfoldable pub worker_count : ℤ → ℕ
worker_count (pos n) = if ltb n 1 then 1 else n
worker_count (negsuc n) = 1

-- `if interval <= 0`
unfoldable pub at_least_1 : ℤ → ℕ
at_least_1 (pos n) = if ltb 0 n then n else 1
at_least_1 (negsuc n) = 1

-- The loop over `workers`, each a call of `newWorker`: `n` are left, and `prev` are the sockets so
-- far. `fits` says whether the slice for the round trips can be made.
unfoldable pub dial_workers : {S : Type 0} → Bool → (ℕ → Option S) → ℕ → ℕ → List S → Run (Dialed S)
dial_workers fits dial zero i prev = ok (opened prev)
dial_workers fits dial (suc n) i prev = elim (dial i) [
  | none ↦ ok (closed i prev)
  | some s ↦ elim fits [
    | true ↦ dial_workers fits dial n (i + 1) (prev ++ (s ∷ []))
    | false ↦ panic
  ]
]

-- A run begins with an interval in nanoseconds and its sockets, or fails after it has closed
-- sockets.
pub data Begun (S : Type 0) : Type 0 where
  began : ℕ → List S → Begun S
  failed : RunError → List S → Begun S

module _ {F : Type 0} (rates : RateLib F) where
  -- `interval`, at least a nanosecond
  unfoldable pub interval_of : F → ℕ → ℕ
  interval_of rate workers =
      let share = rates.share rate workers in
      let pace = if rates.at_most_0 share then rates.one_float else share in
      at_least_1 (rates.nanos_per pace)

  -- the bits of `perWorkerCap`
  unfoldable pub capacity_of : Config F → ℕ → ℕ
  capacity_of cfg workers =
      let sends = (rates.estimate cfg.rate cfg.duration + 1024) % 2 ^ 64 in
      (sends / workers + 1024) % 2 ^ 64

  -- after the loop over the workers
  unfoldable pub begin_dialed : {S : Type 0} → F → ℕ → Dialed S → Begun S
  begin_dialed rate workers (opened sockets) = began (interval_of rate workers) sockets
  begin_dialed rate workers (closed i prev) = failed (not_dialed i) prev

  module _ {S : Type 0} (net : NetCalls S) where
    -- `run`, before its goroutines
    unfoldable pub begin_run : Config F → Run (Begun S)
    begin_run cfg =
        let workers = worker_count cfg.workers in
        if rates.at_most_0 cfg.rate
        then ok (failed bad_rate [])
        else elim (resolve_server net.splits cfg.server) [
          | none ↦ ok (failed bad_server [])
          | some server ↦
              if net.resolves server
              then (if net.has_room workers
                  then (do
                    dialed ←
                        dial_workers (net.makes (capacity_of cfg workers)) net.dial workers 0 []
                    ok (begin_dialed cfg.rate workers dialed))
                  else panic)
              else ok (failed unresolved [])
        ]

  -- the exit status of `main`; none is an error of `run`
  unfoldable pub exit_status : GoString → Option (Stats F) → ℕ
  exit_status server result =
      if server == []
      then 2
      else elim result [ none ↦ 2 | some stats ↦ if rates.over_1 stats.loss_percent then 1 else 0 ]
