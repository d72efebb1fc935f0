-- ===== src/Tests/Loopers.antt =====
-- Runs of the loops of `RunWorker`, with reads that fail.
use ntp_server.Base.{
  ℕ, zero, suc, ◌+◌, ◌≡◌, ◌≤◌, ◌<◌, refl, true, false, none, some, List, [], ◌∷◌, ◌++◌, get_elem?,
  Option-cases, ◌⊎◌, inl, inr, All, Run, ok, panic, Returns, ◌>>=◌,
}
use ntp_server.Base.Int.{pos}
use ntp_server.Capture.Worker.{Worker}
use ntp_server.Capture.Sockets.{Attempt, joined, no_socket, Ledger, Manager, open_manager}
use ntp_server.Capture.Owned.{occurrences}
use ntp_server.Capture.Loops.{
  Looper, Capturing, Happening, checks, fails, wakes, swaps, gets_packet, stops, start_loops,
  loop_step, fail_read, sleeping, reading, ended, Loops, begun, halts, steps, stop_loops,
}
use ntp_server.Capture.Reading.{Open, Loops-Open, hands}
use ntp_server.Capture.Ending.{Winding, still, onward, Ended, CanGo, Loops-Ends}
use ntp_server.Tests.Sessions.{busy, busy_lem}

abbrev pub two : Manager
two = record { num_workers = 2; num_blocks = 32; sockets = 5 ∷ 6 ∷ [] }

abbrev pub two_open : Ledger
two_open = record { fresh = 7; held = 6 ∷ 5 ∷ 3 ∷ [] }

pub two-opened :
    open_manager (pos 67108864) (pos 2) (λ i. joined) busy ≡ (some (two, 67108864), two_open)
unfolding ntp_server.Capture.Worker.clamp_workers ntp_server.Capture.Sockets.open_manager
    ntp_server.Capture.Sockets.open_loop ntp_server.Capture.Sockets.new_socket
    ntp_server.Capture.Sockets.create ntp_server.Capture.Sockets.blocks_of
two-opened = refl

-- a happening of the goroutine of index `i`
abbrev happen : ℕ → Happening → Capturing → Run Capturing
happen i h s = elim (get_elem? s.loopers i) [ none ↦ ok s | some l ↦ loop_step h l.stage i l s ]

abbrev drive : List (ℕ × Happening) → Run Capturing → Run Capturing
drive [] r = r
drive ((i, h) ∷ hs) r = drive hs (r >>= happen i h)

happen-Loops :
    {m : Manager} {k : Ledger} (i : ℕ) (h : Happening) (r : Run Capturing)
    → Loops m k r
    → Loops m k (r >>= happen i h)
happen-Loops i h panic before = before
happen-Loops {m} {k} i h (ok s) before = elim (Option-cases (get_elem? s.loopers i)) [
  | inl e ↦ rw (happen, e) before
  | inr (l, e) ↦ rw (happen, e) (steps i l h before e)
]

drive-Loops :
    {m : Manager} {k : Ledger} (hs : List (ℕ × Happening)) (r : Run Capturing)
    → Loops m k r
    → Loops m k (drive hs r)
drive-Loops [] r before = before
drive-Loops ((i, h) ∷ hs) r before = drive-Loops hs (r >>= happen i h) (happen-Loops i h r before)

-- reads of the first goroutine that fail, each after a sleep
abbrev failing : ℕ → List (ℕ × Happening)
failing zero = []
failing (suc n) = (0, checks) ∷ (0, fails n no_socket) ∷ (0, wakes) ∷ failing n

-- It then opens socket 7 and exchanges socket 5 for it, while the second goroutine gets a packet.
abbrev script : List (ℕ × Happening)
script =
    failing 31
    ++ ((0, checks) ∷ (1, checks) ∷ (0, fails 50 joined) ∷ (1, gets_packet) ∷ (0, swaps) ∷ [])

abbrev swapped : Run Capturing
swapped = drive script (ok (start_loops two two_open))

Loops-Open_example : Returns swapped λ s.
    All (Open s.ledger) s.loopers
    × All (λ j. 0 < occurrences j s.ledger.held) s.sockets
    × ((j : ℕ)
        → occurrences j s.ledger.held
          ≡ occurrences j busy.held + (occurrences j s.sockets + hands j s.loopers))
Loops-Open_example =
    Loops-Open (pos 67108864) (pos 2) (λ i. joined) busy busy_lem two-opened
      (drive-Loops script (ok (start_loops two two_open)) begun)

sockets-swapped :
    Returns swapped λ s. (s.sockets ≡ 7 ∷ 6 ∷ []) × (s.ledger.held ≡ 7 ∷ 6 ∷ 5 ∷ 3 ∷ [])
unfolding start_loops loop_step fail_read ntp_server.Capture.Sockets.new_socket
    ntp_server.Capture.Sockets.create ntp_server.Capture.Worker.round
    ntp_server.Capture.Worker.start
sockets-swapped = (_, refl, (refl, refl))

-- the first goroutine sleeps after a read that failed, and the second is in a read
abbrev sleeper : Looper
sleeper = record {
  stage = sleeping;
  sock = 5;
  locals = record { consecutive_errs = 1; backoff = 20_000_000; last_log = some 50 };
}

abbrev reader : Looper
reader = record {
  stage = reading;
  sock = 6;
  locals = record { consecutive_errs = 0; backoff = 10_000_000; last_log = none };
}

abbrev halfway : Capturing
halfway = record {
  sockets = 5 ∷ 6 ∷ [];
  ledger = two_open;
  loopers = sleeper ∷ reader ∷ [];
  stopped = false;
}

halfway-Loops : Loops two two_open (ok halfway)
unfolding start_loops loop_step fail_read ntp_server.Capture.Worker.round
    ntp_server.Capture.Worker.start ntp_server.Capture.Worker.log_due
    ntp_server.Capture.Worker.next_backoff ntp_server.Capture.Sockets.new_socket
halfway-Loops =
    drive-Loops ((0, checks) ∷ (1, checks) ∷ (0, fails 50 no_socket) ∷ [])
      (ok (start_loops two two_open)) begun

-- the sleeper sees that the channel is closed, and ends
abbrev one_left : Capturing
one_left = record halfway {
  loopers = record sleeper { stage = ended } ∷ reader ∷ [];
  stopped = true;
}

ends-Winding : Winding (stop_loops halfway) (0 ∷ []) one_left
unfolding stop_loops loop_step
ends-Winding = onward 0 sleeper stops still refl tt refl

stopped_lem : (stop_loops halfway).stopped ≡ true
unfolding stop_loops
stopped_lem = refl

Loops-Ends_example :
    ((j : ℕ) → occurrences j (0 ∷ []) ≤ 4) × (All Ended one_left.loopers ⊎ CanGo one_left)
Loops-Ends_example =
    Loops-Ends (pos 67108864) (pos 2) (λ i. joined) busy busy_lem two-opened (halts halfway-Loops)
      stopped_lem ends-Winding
