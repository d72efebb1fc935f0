-- ===== src/Load/Conserved.antt =====
-- Every run of the workers of scripts/ntp-load/main.go: what is sent is answered or pending.
use ntp_server.Base.{
  ℕ, zero, suc, ◌+◌, ◌*◌, ◌/◌, ◌%◌, ◌^◌, ◌≤◌, ◌<◌, ◌≡◌, refl, sym, ap, ◌∙◌, some, List, [], ◌∷◌,
  ◌++◌, get_elem?, set, length, arith, All, All-append, All-get, All-set, All-imp, sum_of,
  sum_of-set, sum_of-append,
}
use ntp_server.Load.Packet.{cookie_base}
use ntp_server.Load.Worker.{
  ready, reading, LoadWorker, sent_by, new_load_worker, step_worker, LoadRun, Runs, here, next,
  new_workers, new_load,
}
use ntp_server.Load.Balance.{settled, IsLoadWorker, later-IsLoadWorker}
use ntp_server.Load.Accounts.{step-Keeps}

-- The state after `k` events.
pub record IsLoad (k : ℕ) (s : LoadRun) : Type 0 where
  pub workers : All (IsLoadWorker k) s.workers
  pub received : s.received ≡ sum_of settled s.workers
  pub few : s.received ≤ k

new_load_worker-IsLoadWorker : (i : ℕ) → IsLoadWorker 0 (new_load_worker i)
unfolding new_load_worker cookie_base ntp_server.Base.GoMap.lookup
new_load_worker-IsLoadWorker i = record {
  base = (i % 2 ^ 16, omega arith);
  counter = omega arith;
  sent = omega arith;
  unique = tt;
  known = λ c t h. absurd (cc);
  current = tt;
  balance = omega arith;
}

new_workers-IsLoad : (count : ℕ) → IsLoad 0 (new_load count)
unfolding new_load new_workers new_load_worker
new_workers-IsLoad zero = record { workers = tt; received = refl; few = omega arith }
new_workers-IsLoad (suc n) =
    let v = new_workers-IsLoad n in
    record {
      workers =
          All-append (IsLoadWorker 0) (new_workers n) (new_load_worker n ∷ []) v.workers
            (new_load_worker-IsLoadWorker n, tt);
      received =
          omega (arith, v.received, sum_of-append settled (new_workers n) (new_load_worker n ∷ []));
      few = omega arith;
    }

pub Runs-IsLoad :
    (count : ℕ) {k : ℕ} {s : LoadRun} → k < 2 ^ 48 → Runs (new_load count) k s → IsLoad k s
unfolding step_worker
Runs-IsLoad count small here = new_workers-IsLoad count
Runs-IsLoad count small (next {k} {b} {u} {received} i w e runs at delivers stepped) =
    let v = Runs-IsLoad count (omega arith) runs in
    let kept =
      step-Keeps k b.received e w.sending w.receiving w small v.few refl refl delivers
        (All-get (IsLoadWorker k) b.workers i at v.workers) in
    let (own, total, few) = rw stepped at kept in
    record {
      workers = All-set (IsLoadWorker (suc k)) b.workers i u own (
          All-imp (IsLoadWorker k) (IsLoadWorker (suc k)) b.workers (later-IsLoadWorker k)
            v.workers);
      received = omega (arith, total, v.received, sum_of-set settled b.workers i u at);
      few = few;
    }

-- both loops have ended
abbrev pub Stopped : LoadWorker → Type 0
Stopped w = (w.sending ≡ ready) × (w.receiving ≡ reading)

-- the requests of a worker without an answer
abbrev pub unanswered : LoadWorker → ℕ
unanswered w = length w.pending

abbrev pub round_trips : LoadWorker → ℕ
round_trips w = length w.rtts

sum_of-Stopped :
    (k : ℕ) (ws : List LoadWorker)
    → All (IsLoadWorker k) ws
    → All Stopped ws
    → (sum_of sent_by ws ≡ sum_of round_trips ws + sum_of unanswered ws)
      × (sum_of settled ws ≡ sum_of round_trips ws)
sum_of-Stopped k [] v s = (refl, refl)
sum_of-Stopped k (w ∷ ws) v s =
    let (sent, kept) = sum_of-Stopped k ws v.1 s.1 in
    (ground (arith, v.0.balance, s.0.0, s.0.1), ground (arith, s.0.1))

-- After any run of the loops, of any number of workers and in any order, in which no request is
-- answered before it is written: once the loops have ended, the requests sent are those received
-- and those still pending, and each one received has one round trip.
pub Runs-conserves :
    (count : ℕ) {k : ℕ} {s : LoadRun}
    → k < 2 ^ 48
    → Runs (new_load count) k s
    → All Stopped s.workers
    → (sum_of sent_by s.workers ≡ s.received + sum_of unanswered s.workers)
      × (sum_of round_trips s.workers ≡ s.received)
Runs-conserves count {k} {s} small runs stopped =
    let v = Runs-IsLoad count small runs in
    let (sent, kept) = sum_of-Stopped k s.workers v.workers stopped in
    (omega (arith, v.received), omega (arith, v.received))
