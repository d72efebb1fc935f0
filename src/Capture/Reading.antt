-- ===== src/Capture/Reading.antt =====
-- The loops of `RunWorker` of exporter/internal/capture/manager.go read only sockets that are
-- open, and lose none.
use ntp_server.Base.{
  ℕ, ◌+◌, ◌<◌, ◌≡◌, ◌∙◌, refl, ap, some, List, get_elem?, length-map, arith, All, All-of_get, Run,
  Returns, sum_of,
}
use ntp_server.Base.Int.{ℤ}
use ntp_server.Capture.Leaks.{open_manager-IsManaged}
use ntp_server.Capture.Sockets.{open_manager, Attempt, Ledger, Manager}
use ntp_server.Capture.Owned.{occurrences, IsLedger, Owns, get-le_occurrences}
use ntp_server.Capture.Loops.{
  Stage, top, reading, Looper, Capturing, start_loops, stop_loops, Loops, begun, halts, steps,
}
use ntp_server.Capture.Agreement.{
  in_hand, current, IsCapturing, hands-started, Agree-started, loop_step-IsCapturing,
}

start_loops-IsCapturing :
    (k₀ : Ledger) (m : Manager) (k : Ledger)
    → IsLedger k
    → Owns k₀ m.sockets k
    → IsCapturing k₀ (start_loops m k)
unfolding start_loops
start_loops-IsCapturing k₀ m k w owns = record {
  ledger = w;
  size = length-map _ m.sockets;
  owns = λ j. omega (arith, owns j, hands-started j m.sockets);
  agree = Agree-started m.sockets;
}

pub Loops-IsCapturing :
    (k₀ : Ledger) {m : Manager} {k : Ledger} {r : Run Capturing}
    → IsLedger k
    → Owns k₀ m.sockets k
    → Loops m k r
    → Returns r (IsCapturing k₀)
unfolding stop_loops
Loops-IsCapturing k₀ {m} {k} w owns begun = (_, refl, start_loops-IsCapturing k₀ m k w owns)
Loops-IsCapturing k₀ w owns (halts {s} before) =
    let (u, same, v) = Loops-IsCapturing k₀ w owns before in
    let e : u ≡ s = cc in
    let v' = rw e at v in
    (_, refl, record { ledger = v'.ledger; size = v'.size; owns = v'.owns; agree = v'.agree })
Loops-IsCapturing k₀ w owns (steps {s} i l h before at) =
    let (u, same, v) = Loops-IsCapturing k₀ w owns before in
    let e : u ≡ s = cc in loop_step-IsCapturing s i l at (rw e at v) h l.stage refl

-- A goroutine in a read, or before one, has an open socket.
abbrev pub Open : Ledger → Looper → Type 0
Open k l = elim l.stage [
  | top ↦ 0 < occurrences l.sock k.held
  | reading ↦ 0 < occurrences l.sock k.held
  | _ ↦ Unit
]

managed-held :
    {k₀ : Ledger} (s : Capturing)
    → IsCapturing k₀ s
    → (i j : ℕ) → get_elem? s.sockets i ≡ some j
    → 0 < occurrences j s.ledger.held
managed-held s v i j at = ground (arith, get-le_occurrences j i s.sockets at, v.owns j)

Open-of_stage :
    {k₀ : Ledger} (s : Capturing) (i : ℕ) (l : Looper)
    → get_elem? s.loopers i ≡ some l
    → IsCapturing k₀ s
    → (g : Stage) → l.stage ≡ g
    → Open s.ledger l
Open-of_stage s i l at v top e =
    rw e (managed-held s v i l.sock (v.agree i l at ∙ ap (λ g. some (current g l.sock)) e))
Open-of_stage s i l at v reading e =
    rw e (managed-held s v i l.sock (v.agree i l at ∙ ap (λ g. some (current g l.sock)) e))
Open-of_stage s i l at v _ e = rw e tt

-- the sockets that only a goroutine knows
abbrev pub hands : ℕ → List Looper → ℕ
hands j = sum_of (λ l. in_hand j l.stage)

-- From the sockets that `Open` opens for a manager, and in whatever order its goroutines,
-- `KernelDrops` and the closing of the stop channel go on, whatever the reads return and
-- whichever sockets fail: no index is out of range; a goroutine reads only a socket that is open;
-- `KernelDrops` finds only open sockets in the manager; and what is open is what was open before
-- `Open`, the manager's sockets, and those that a goroutine holds in `reopenWorker`.
pub Loops-Open :
    (ring_bytes num_workers : ℤ) (attempt : ℕ → Attempt) (k₀ : Ledger) {m : Manager} {bytes : ℕ}
    {k : Ledger} {r : Run Capturing}
    → IsLedger k₀
    → open_manager ring_bytes num_workers attempt k₀ ≡ (some (m, bytes), k)
    → Loops m k r
    → Returns r λ s.
      All (Open s.ledger) s.loopers
      × All (λ j. 0 < occurrences j s.ledger.held) s.sockets
      × ((j : ℕ)
          → occurrences j s.ledger.held
            ≡ occurrences j k₀.held + (occurrences j s.sockets + hands j s.loopers))
Loops-Open ring_bytes num_workers attempt k₀ {m} {bytes} {k} w opened loops =
    let managed = open_manager-IsManaged ring_bytes num_workers attempt k₀ w in
    let (w', owns, size) = rw opened at managed in
    let (s, same, v) = Loops-IsCapturing k₀ w' owns loops in
    (
      s,
      same,
      (
        All-of_get (Open s.ledger) s.loopers (λ i l at. Open-of_stage s i l at v l.stage refl),
        All-of_get (λ j. 0 < occurrences j s.ledger.held) s.sockets
            (λ i j at. managed-held s v i j at),
        v.owns,
      ),
    )
