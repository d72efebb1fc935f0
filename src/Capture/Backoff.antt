-- ===== src/Capture/Backoff.antt =====
-- How long the loop of `RunWorker` of exporter/internal/capture/manager.go sleeps, and how often it
-- reopens its socket.
use native.Mathlib.Nat.{pow-suc, one-le-pow}
use ntp_server.Base.{
  ℕ, suc, ◌+◌, ◌*◌, ◌/◌, ◌%◌, ◌^◌, ◌≤◌, ◌<◌, min, ◌≡◌, inl, inr, List, [], ◌∷◌, ◌++◌, arith, leb,
  Bool-cases, All, All-append,
}
use ntp_server.Capture.Worker.{
  Worker, start, Read, timed_out, packet, failed, Act, sleeps, reopens, log_due, next_backoff,
  round, rounds, loop_err_backoff_min, loop_err_backoff_max, loop_err_reopen_after,
}

-- The backoff after `k` consecutive errors is the smallest backoff doubled `k` times, capped, and a
-- socket is reopened before there are more errors than `loop_err_reopen_after`.
pub record IsWorker (w : Worker) : Type 0 where
  pub errs : w.consecutive_errs < loop_err_reopen_after
  pub backoff : w.backoff ≡ min (loop_err_backoff_min * 2 ^ w.consecutive_errs) loop_err_backoff_max

-- failed reads, and reopenings
unfoldable pub failures : List Read → ℕ
failures [] = 0
failures (failed now reopened ∷ reads) = suc (failures reads)
failures (r ∷ reads) = failures reads

unfoldable pub reopenings : List Act → ℕ
reopenings [] = 0
reopenings (reopens b ∷ acts) = suc (reopenings acts)
reopenings (a ∷ acts) = reopenings acts

-- no sleep is longer than `loop_err_backoff_max`, or shorter than `loop_err_backoff_min`
abbrev pub IsPatient : Act → Type 0
IsPatient (sleeps d) = (loop_err_backoff_min ≤ d) × (d ≤ loop_err_backoff_max)
IsPatient a = Unit

reopenings-append : (xs ys : List Act) → reopenings (xs ++ ys) ≡ reopenings xs + reopenings ys
unfolding reopenings
reopenings-append [] ys = omega arith
reopenings-append (x ∷ xs) ys = ground (arith, reopenings-append xs ys)

next_backoff_lem :
    (k : ℕ)
    → next_backoff (min (loop_err_backoff_min * 2 ^ k) loop_err_backoff_max)
      ≡ min (loop_err_backoff_min * 2 ^ (k + 1)) loop_err_backoff_max
unfolding next_backoff
next_backoff_lem k =
    let e : k + 1 ≡ suc k = omega arith in
    let double : 2 ^ (k + 1) ≡ 2 ^ k * 2 = rw e (pow-suc 2 k) in ground (arith, double)

-- a read during an outage
abbrev pub IsOutage : Read → Type 0
IsOutage packet = ⊥
IsOutage r = Unit

-- what a round does to a worker
record Stepped (r : Read) (w : Worker) (u : Worker × List Act) : Type 0 where
  pub valid : IsWorker u.0
  pub patient : All IsPatient u.1
  pub errs : 32 * reopenings u.1 + u.0.consecutive_errs ≤ w.consecutive_errs + failures (r ∷ [])
  pub exact :
      IsOutage r
      → 32 * reopenings u.1 + u.0.consecutive_errs ≡ w.consecutive_errs + failures (r ∷ [])

round-Stepped : (r : Read) (w : Worker) → IsWorker w → Stepped r w (round r w)
unfolding round failures reopenings
round-Stepped timed_out w v = record {
  valid = v;
  patient = tt;
  errs = omega arith;
  exact = λ o. omega arith;
}
round-Stepped packet w v = record {
  valid = record { errs = omega arith; backoff = omega arith };
  patient = (tt, tt);
  errs = omega arith;
  exact = λ o. absurd o;
}
round-Stepped (failed now reopened) w v =
    let low : 1 ≤ 2 ^ w.consecutive_errs = one-le-pow w.consecutive_errs 2 (omega arith) in
    let long : (loop_err_backoff_min ≤ w.backoff) × (w.backoff ≤ loop_err_backoff_max) =
      omega (arith, v.backoff) in
    elim (Bool-cases (leb loop_err_reopen_after (w.consecutive_errs + 1))) [
      | inl again ↦ elim (Bool-cases (log_due now w.last_log)) [
        | inl due ↦
            rw (again, due)
              (record {
                valid = record { errs = omega arith; backoff = omega arith };
                patient = (tt, (tt, tt));
                errs = ground arith;
                exact = λ o. ground (arith, v.errs);
              })
        | inr quiet ↦
            rw (again, quiet)
              (record {
                valid = record { errs = omega arith; backoff = omega arith };
                patient = (tt, tt);
                errs = ground arith;
                exact = λ o. ground (arith, v.errs);
              })
      ]
      | inr later ↦ elim (Bool-cases (log_due now w.last_log)) [
        | inl due ↦
            rw (later, due)
              (record {
                valid = record {
                  errs = ground arith;
                  backoff = rw v.backoff (next_backoff_lem w.consecutive_errs);
                };
                patient = (tt, (long, tt));
                errs = omega arith;
                exact = λ o. omega arith;
              })
        | inr quiet ↦
            rw (later, quiet)
              (record {
                valid = record {
                  errs = ground arith;
                  backoff = rw v.backoff (next_backoff_lem w.consecutive_errs);
                };
                patient = (long, tt);
                errs = omega arith;
                exact = λ o. omega arith;
              })
      ]
    ]

failures_cons :
    (r : Read) (reads : List Read) → failures (r ∷ reads) ≡ failures (r ∷ []) + failures reads
unfolding failures
failures_cons r reads = ground arith

-- Whatever the reads return, `RunWorker` sleeps between the two bounds of the backoff, the backoff
-- after `k` consecutive errors is the smallest one doubled `k` times and capped, and there is at
-- most one reopening of the socket for each 32 failed reads.
pub rounds-IsWorker :
    (reads : List Read) (w : Worker)
    → IsWorker w
    → IsWorker (rounds reads w).0
      × All IsPatient (rounds reads w).1
      × (32 * reopenings (rounds reads w).1 + (rounds reads w).0.consecutive_errs
          ≤ w.consecutive_errs + failures reads)
unfolding rounds failures reopenings
rounds-IsWorker [] w v = (v, tt, omega arith)
rounds-IsWorker (r ∷ reads) w v =
    let s = round-Stepped r w v in
    let (valid, patient, errs) = rounds-IsWorker reads (round r w).0 s.valid in
    (
      valid,
      All-append IsPatient (round r w).1 _ s.patient patient,
      omega (
        arith,
        s.errs,
        reopenings-append (round r w).1 (rounds reads (round r w).0).1,
        failures_cons r reads,
      ),
    )

-- in an outage each failed read is an error that stands, or one of 32 for which there was a
-- reopening
outage-reopenings :
    (reads : List Read) (w : Worker)
    → IsWorker w
    → All IsOutage reads
    → 32 * reopenings (rounds reads w).1 + (rounds reads w).0.consecutive_errs
      ≡ w.consecutive_errs + failures reads
unfolding rounds failures reopenings
outage-reopenings [] w v all = omega arith
outage-reopenings (r ∷ reads) w v all =
    let s = round-Stepped r w v in
    omega (
      arith,
      s.exact all.0,
      outage-reopenings reads (round r w).0 s.valid all.1,
      reopenings-append (round r w).1 (rounds reads (round r w).0).1,
      failures_cons r reads,
    )

-- During an outage, in which no read returns a packet, the socket is reopened exactly once for
-- each 32 failed reads, counted with the errors before the outage: as often as 32 goes into their
-- number, and what is left of it are the errors that stand.
pub rounds-reopenings :
    (reads : List Read) (w : Worker)
    → IsWorker w
    → All IsOutage reads
    → (reopenings (rounds reads w).1 ≡ (w.consecutive_errs + failures reads) / 32)
      × ((rounds reads w).0.consecutive_errs ≡ (w.consecutive_errs + failures reads) % 32)
rounds-reopenings reads w v all =
    let below = (rounds-IsWorker reads w v).0.errs in
    let e = outage-reopenings reads w v all in (omega (arith, below, e), omega (arith, below, e))

-- a worker starts well
pub start-IsWorker : IsWorker start
unfolding start
start-IsWorker = record { errs = omega arith; backoff = omega arith }
