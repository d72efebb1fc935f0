-- ===== src/Aggregate/Threads/Conserved.antt =====
-- Any interleaving of the goroutines of exporter/internal/aggregate/aggregate.go: no panic, no
-- request lost or counted twice, and no sweep forgotten.
use ntp_server.Base.{
  ℕ, zero, suc, ◌+◌, ◌*◌, ◌≤◌, ◌<◌, ◌≡◌, ◌∙◌, ◌⊎◌, refl, inl, inr, Bool, some, List, [], ◌∷◌, ◌++◌,
  arith, length, max, set, get_elem?, get_elem?-some-lt, get_elem?-set_self, get_elem?-set_ne,
  replicate, length-replicate, All, All-get, All-set, All-replicate, sum_of, sum_of-set, nat_eqb,
  Bool-cases, Run, Returns, string_eq,
}
use ntp_server.Hll.{Floats}
use ntp_server.Base.Order.{Sorts}
use ntp_server.Aggregate.Accessors.{pending_len, pending-bound}
use ntp_server.Aggregate.{new, pending_max, new_worker_counters}
use ntp_server.Aggregate.Asn.{Kv}
use ntp_server.Aggregate.Valid.{new-IsValid}
use ntp_server.Aggregate.Flush.Ledger.{
  Series, posted, posted-append, waiting, waits-new, waiting-replicate,
}
use ntp_server.Aggregate.Flush.Total.{Call, frame, flushes, IsCall, requests_in}
use ntp_server.Aggregate.Threads.{
  Goroutine, idle, System, new_system, begin_call, start_call, advance, Reaches, started, begins,
  goes_on,
}
use ntp_server.Aggregate.Threads.Settled.{IsSettled, IsValid-still}
use ntp_server.Aggregate.Threads.Places.{IsPlaced, held, Due}
use ntp_server.Aggregate.Threads.Kept.{Watched}
use ntp_server.Aggregate.Threads.Steps.{step-Keeps}

-- No sweep is due, or a goroutine is about to win the compare-and-swap that begins one.
abbrev pub Swept : ℕ → List Goroutine → Type 0
Swept frames threads =
    (frames < 1024) ⊎ ((i : ℕ) × (g : Goroutine) × (get_elem? threads i ≡ some g) × Due frames g)

-- what is published, what waits in the counters of the workers, and what the goroutines hold
abbrev pub all_requests : {F : Type 0} → Series → System F → ℕ
all_requests s sys =
    posted s sys.events + (waiting s sys.collector.workers + sum_of (held s) sys.threads)

record IsSystem {F : Type 0} (n : ℕ) (calls : List Call) (sys : System F) : Type 0 where
  settled : IsSettled n sys.collector
  placed : All (IsPlaced n) sys.threads
  counted : (s : Series) → all_requests s sys ≡ requests_in calls
  swept : Swept sys.collector.frames_since_sweep sys.threads

-- a goroutine that was not about to win goes on
Swept-set :
    (k : ℕ) (threads : List Goroutine) (i : ℕ) (g g' : Goroutine)
    → get_elem? threads i ≡ some g
    → ¬ Due k g
    → Swept k threads
    → Swept k (set threads i g')
Swept-set k threads i g g' at quiet (inl none_due) = inl none_due
Swept-set k threads i g g' at quiet (inr (j, h, at_j, due)) = elim (Bool-cases (nat_eqb i j)) [
  | inl same ↦ let e : i ≡ j = ground arith in let e' : g ≡ h = cc in absurd (quiet (rw e' due))
  | inr other ↦ inr (j, h, get_elem?-set_ne threads i j g' (ground arith) ∙ at_j, due)
]

sum_of-idle : (s : Series) (m : ℕ) → sum_of (held s) (replicate m idle) ≡ 0
unfolding replicate
sum_of-idle s zero = refl
sum_of-idle s (suc m) = omega (arith, sum_of-idle s m)

start_call-IsPlaced : (n : ℕ) (call : Call) → 1 ≤ n → IsCall n call → IsPlaced n (start_call call)
unfolding start_call
start_call-IsPlaced n (frame r f) some_worker p = p
start_call-IsPlaced n (flushes r) some_worker p = some_worker

start_call-held :
    (s : Series) (call : Call) (calls : List Call)
    → held s (start_call call) + requests_in calls ≡ requests_in (call ∷ calls)
unfolding start_call requests_in
start_call-held s (frame r f) calls = refl
start_call-held s (flushes r) calls = omega (arith, waits-new s)

module _ {F : Type 0} where
  new_system-IsSystem :
      (asn_top_n num_workers m : ℕ)
      → IsSystem (max num_workers 1) [] (new_system {F = F} asn_top_n num_workers m)
  unfolding new_system new posted requests_in
  new_system-IsSystem asn_top_n num_workers m = record {
    settled = (
      IsValid-still (new-IsValid asn_top_n num_workers).0,
      length-replicate (max num_workers 1) new_worker_counters,
    );
    placed = All-replicate (IsPlaced (max num_workers 1)) m idle tt;
    counted = λ s. omega (arith, waiting-replicate s (max num_workers 1), sum_of-idle s m);
    swept = inl (omega arith);
  }

  begin_call-IsSystem :
      {n : ℕ} {calls : List Call} (sys : System F) (i : ℕ) (call : Call)
      → 1 ≤ n
      → IsCall n call
      → get_elem? sys.threads i ≡ some idle
      → IsSystem n calls sys
      → IsSystem n (call ∷ calls) (begin_call i call sys)
  unfolding begin_call
  begin_call-IsSystem {n} {calls} sys i call some_worker p at v = record {
    settled = v.settled;
    placed =
        All-set (IsPlaced n) sys.threads i (start_call call)
          (start_call-IsPlaced n call some_worker p) v.placed;
    counted = λ s. omega (
      arith,
      v.counted s,
      sum_of-set (held s) sys.threads i (start_call call) at,
      start_call-held s call calls,
    );
    swept =
        Swept-set sys.collector.frames_since_sweep sys.threads i idle (start_call call) at (λ h. h)
          v.swept;
  }

-- a step keeps the sweep in sight
advance-Swept :
    (k : ℕ) (threads : List Goroutine) (i : ℕ) (g : Goroutine) (k' : ℕ) (g' : Goroutine)
    → get_elem? threads i ≡ some g
    → Watched k g k' g'
    → i < length threads
    → Swept k threads
    → Swept k' (set threads i g')
advance-Swept k threads i g k' g' at (inl none_due) lt v = inl none_due
advance-Swept k threads i g k' g' at (inr (inl due)) lt v =
    inr (i, g', get_elem?-set_self threads i g' lt, due)
advance-Swept k threads i g k' g' at (inr (inr (same, quiet))) lt v =
    rw same (Swept-set k threads i g g' at quiet v)

module _ {F : Type 0} (sha1 : List ℕ → List ℕ) (fl : Floats F)
    (sort : (Kv → Kv → Bool) → List Kv → List Kv) (sorts : Sorts sort) where
  advance-IsSystem :
      {n : ℕ} {calls : List Call} (sys : System F) (i : ℕ) (g : Goroutine)
      → get_elem? sys.threads i ≡ some g
      → IsSystem n calls sys
      → Returns (advance sha1 fl sort i g sys) (IsSystem n calls)
  unfolding advance
  advance-IsSystem {n} sys i g at v =
      let (u, run, (placed, settled, counts, watched)) =
        step-Keeps sha1 fl sort sorts n sys.collector v.settled g
          (All-get (IsPlaced n) sys.threads i at v.placed) in
      (
        record { collector = u.1; threads = set sys.threads i u.0; events = sys.events ++ u.2 },
        rw run refl,
        record {
          settled = settled;
          placed = All-set (IsPlaced n) sys.threads i u.0 placed v.placed;
          counted = λ s. omega (
            arith,
            v.counted s,
            counts s,
            posted-append s sys.events u.2,
            sum_of-set (held s) sys.threads i u.0 at,
          );
          swept =
              advance-Swept sys.collector.frames_since_sweep sys.threads i g u.1.frames_since_sweep
                u.0 at watched (get_elem?-some-lt sys.threads i at) v.swept;
        },
      )

  Reaches-IsSystem :
      {asn_top_n num_workers m : ℕ} {calls : List Call} {r : Run (System F)}
      → Reaches sha1 fl sort asn_top_n num_workers m calls r
      → Returns r (IsSystem (max num_workers 1) calls)
  Reaches-IsSystem {asn_top_n} {num_workers} {m} started =
      (_, refl, new_system-IsSystem asn_top_n num_workers m)
  Reaches-IsSystem (begins {calls} {s} i call before p at) =
      let (u, same, v) = Reaches-IsSystem before in
      let e : u ≡ s = cc in (_, refl, begin_call-IsSystem s i call (omega arith) p at (rw e at v))
  Reaches-IsSystem (goes_on {calls} {s} i g before at) =
      let (u, same, v) = Reaches-IsSystem before in
      let e : u ≡ s = cc in advance-IsSystem s i g at (rw e at v)

  -- For any number of goroutines that call `HandleFrame` and `Flush` at the same time, in any
  -- interleaving of their critical sections and atomic operations, for frames of workers that
  -- exist: nothing panics, and between any two steps the collector's tables are well formed, with
  -- at most 16 times `pending_max` requests pending; in each of the four series, by country, by
  -- ASN, by version and by family, what is published, what waits in the counters and what the
  -- goroutines hold add up to the requests whose calls have begun; and a sweep is never
  -- forgotten: once 1024 frames have been counted since the last one, some goroutine is before a
  -- compare-and-swap that begins one, unless another frame is counted first.
  pub Reaches-conserves :
      {asn_top_n num_workers m : ℕ} {calls : List Call} {r : Run (System F)}
      → Reaches sha1 fl sort asn_top_n num_workers m calls r
      → Returns r λ sys.
        IsSettled (max num_workers 1) sys.collector
        × (pending_len sys.collector ≤ 16 * pending_max)
        × ((s : Series) → all_requests s sys ≡ requests_in calls)
        × Swept sys.collector.frames_since_sweep sys.threads
  unfolding pending_len
  Reaches-conserves reaches =
      let (sys, same, v) = Reaches-IsSystem reaches in
      let few = pending-bound sys.collector.shards v.settled.0.shards in
      (sys, same, (v.settled, omega (arith, few, v.settled.0.num_shards), v.counted, v.swept))
