-- ===== src/Capture/Running.antt =====
-- exporter/internal/capture/manager.go: `Run`, which waits for its goroutines. They count down an
-- `int32`, kept as a number below 2 ^ 32, and the last one closes the channel `done`.
use ntp_server.Base.{
  ℕ, zero, suc, ◌+◌, ◌-◌, ◌%◌, ◌^◌, ◌≤◌, ◌<◌, ◌≡◌, refl, Bool, true, false, some, List, [], ◌∷◌,
  get_elem?, set, replicate, nat_eqb, if◌then◌else◌, Run, ok, panic, arith, sum_of, sum_of-set,
  Returns, inl, inr, Bool-cases,
}

-- Where a goroutine stands: in `RunWorker`, before `close(done)`, or at its end.
pub data Goroutine : Type 0 where
  in_worker closing ended : Goroutine

pub record Waiting : Type 0 where
  pub goroutines : List Goroutine
  pub running : ℕ
  pub closed : Bool

-- the goroutines started for the sockets of the manager
unfoldable pub start_run : ℕ → Waiting
start_run n = record { goroutines = replicate n in_worker; running = n % 2 ^ 32; closed = false }

-- `RunWorker` returns, and the count goes down by one
unfoldable pub leave : ℕ → Waiting → Waiting
leave i s =
    let running = (s.running + (2 ^ 32 - 1)) % 2 ^ 32 in
    record s {
      goroutines = set s.goroutines i (if nat_eqb running 0 then closing else ended);
      running = running;
    }

-- `close(done)`, a panic if it is closed
unfoldable pub close_done : ℕ → Waiting → Run Waiting
close_done i s =
    if s.closed
    then panic
    else ok (record s { goroutines = set s.goroutines i ended; closed = true })

-- `Reaches n r`: the goroutines of `n` sockets, in any order, can reach `r`, a state or a panic.
pub data Reaches (n : ℕ) : Run Waiting → Type 0 where
  started : Reaches n (ok (start_run n))
  left :
      {s : Waiting} (i : ℕ)
      → Reaches n (ok s)
      → get_elem? s.goroutines i ≡ some in_worker
      → Reaches n (ok (leave i s))
  closes :
      {s : Waiting} (i : ℕ)
      → Reaches n (ok s)
      → get_elem? s.goroutines i ≡ some closing
      → Reaches n (close_done i s)

abbrev works : Goroutine → ℕ
works in_worker = 1
works _ = 0

abbrev closes_next : Goroutine → ℕ
closes_next closing = 1
closes_next _ = 0

-- whether all goroutines have ended
unfoldable pub all_ended : List Goroutine → Bool
all_ended [] = true
all_ended (ended ∷ gs) = all_ended gs
all_ended (_ ∷ gs) = false

-- The count is that of the goroutines at work, and when it is 0, `done` is closed or about to be.
record IsWaiting (n : ℕ) (s : Waiting) : Type 0 where
  running : s.running ≡ sum_of works s.goroutines
  few : s.running ≤ n
  once :
      sum_of closes_next s.goroutines + (if s.closed then 1 else 0)
      ≡ (if nat_eqb s.running 0 then 1 else 0)

works-replicate :
    (n : ℕ)
    → (sum_of works (replicate n in_worker) ≡ n) × (sum_of closes_next (replicate n in_worker) ≡ 0)
unfolding replicate
works-replicate zero = (refl, refl)
works-replicate (suc n) =
    (omega (arith, (works-replicate n).0), omega (arith, (works-replicate n).1))

start_run-IsWaiting : (n : ℕ) → 1 ≤ n → n < 2 ^ 32 → IsWaiting n (start_run n)
unfolding start_run
start_run-IsWaiting n some_socket small = record {
  running = omega (arith, (works-replicate n).0);
  few = omega arith;
  once = ground (arith, (works-replicate n).1);
}

leave-IsWaiting :
    {n : ℕ} {s : Waiting} (i : ℕ)
    → n < 2 ^ 32
    → get_elem? s.goroutines i ≡ some in_worker
    → IsWaiting n s
    → IsWaiting n (leave i s)
unfolding leave
leave-IsWaiting {n} {s} i small at v =
    let gone = sum_of-set works s.goroutines i ended at in
    let count : (s.running + (2 ^ 32 - 1)) % 2 ^ 32 ≡ s.running - 1 =
      omega (arith, gone, v.running, v.few) in
    elim (Bool-cases (nat_eqb (s.running - 1) 0)) [
      | inl last ↦
          rw (leave, count, last)
            (record {
              running = omega (arith, sum_of-set works s.goroutines i closing at, v.running);
              few = omega (arith, v.few);
              once = ground (
                arith,
                sum_of-set closes_next s.goroutines i closing at,
                v.once,
                gone,
                v.running,
              );
            })
      | inr more ↦
          rw (leave, count, more)
            (record {
              running = omega (arith, gone, v.running);
              few = omega (arith, v.few);
              once =
                  ground (
                    arith,
                    sum_of-set closes_next s.goroutines i ended at,
                    v.once,
                    gone,
                    v.running,
                  );
            })
    ]

-- `close(done)` does not panic
close_done-IsWaiting :
    {n : ℕ} {s : Waiting} (i : ℕ)
    → get_elem? s.goroutines i ≡ some closing
    → IsWaiting n s
    → Returns (close_done i s) (IsWaiting n)
unfolding close_done
close_done-IsWaiting {n} {s} i at v =
    let next = sum_of-set closes_next s.goroutines i ended at in
    let pending : s.closed ≡ false = ground (arith, next, v.once) in
    (
      record s { goroutines = set s.goroutines i ended; closed = true },
      rw pending refl,
      record {
        running = omega (arith, sum_of-set works s.goroutines i ended at, v.running);
        few = v.few;
        once = ground (arith, next, v.once, pending);
      },
    )

Reaches-IsWaiting :
    {n : ℕ} {r : Run Waiting} → 1 ≤ n → n < 2 ^ 32 → Reaches n r → Returns r (IsWaiting n)
Reaches-IsWaiting {n} some_socket small started = (_, refl, start_run-IsWaiting n some_socket small)
Reaches-IsWaiting {n} some_socket small (left {s} i r at) =
    let (u, same, v) = Reaches-IsWaiting some_socket small r in
    let e : u ≡ s = cc in (_, refl, leave-IsWaiting i small at (rw e at v))
Reaches-IsWaiting {n} some_socket small (closes {s} i r at) =
    let (u, same, v) = Reaches-IsWaiting some_socket small r in
    let e : u ≡ s = cc in close_done-IsWaiting i at (rw e at v)

all_ended_lem :
    (gs : List Goroutine) → all_ended gs ≡ nat_eqb (sum_of works gs + sum_of closes_next gs) 0
unfolding all_ended
all_ended_lem [] = ground arith
all_ended_lem (ended ∷ gs) = ground (arith, all_ended_lem gs)
all_ended_lem (in_worker ∷ gs) = ground arith
all_ended_lem (closing ∷ gs) = ground arith

-- For at least one socket, and fewer than 2 ^ 32, and in whatever order the goroutines go on:
-- `done` is never closed twice, which would be a panic, and it is closed exactly if all
-- goroutines have ended. So `Run`, once `stop` is closed, returns when the last worker has ended,
-- and no sooner.
pub Reaches-closed :
    {n : ℕ} {r : Run Waiting}
    → 1 ≤ n
    → n < 2 ^ 32
    → Reaches n r
    → Returns r (λ s. s.closed ≡ all_ended s.goroutines)
Reaches-closed some_socket small reaches =
    let (s, same, v) = Reaches-IsWaiting some_socket small reaches in
    (s, same, ground (arith, all_ended_lem s.goroutines, v.running, v.once))
