-- ===== src/Aggregate/Threads/Places.antt =====
-- Where the goroutines of exporter/internal/aggregate/aggregate.go can stand, and what they hold.
use ntp_server.Base.{
  ℕ, ◌+◌, ◌<◌, ◌≡◌, refl, inl, inr, some, List, arith, set, get_elem?, get_elem?-lt, All-get, ltb,
  ok, if◌then◌else◌, Bool-cases, ◌==◌, string_eq,
}
use ntp_server.Frame.{request}
use ntp_server.Aggregate.{Collector, WorkerCounters, Shard, Event}
use ntp_server.Aggregate.Handle.{Frame, with_shard}
use ntp_server.Aggregate.Valid.{IsValidWorker, IsValidShard}
use ntp_server.Aggregate.Flush.Ledger.{Series, waits}
use ntp_server.Aggregate.Threads.{
  Goroutine, idle, entered, counting, touching, bucketing, remembering, pairing, added, sweeping,
  merging, totalling, evicting, expiring, rotating, next_of,
}
use ntp_server.Aggregate.Threads.Settled.{IsSettled, IsSettled-shard}

-- Every index is one of a slice, with `n` workers.
abbrev pub IsPlaced : ℕ → Goroutine → Type 0
IsPlaced n idle = Unit
IsPlaced n (entered r f) = f.worker < n
IsPlaced n (counting r f) = f.worker < n
IsPlaced n (touching r f) = Unit
IsPlaced n (bucketing r f) = Unit
IsPlaced n (remembering r f) = Unit
IsPlaced n (pairing r f) = Unit
IsPlaced n (added r f k) = f.worker < n
IsPlaced n (sweeping r f i) = (f.worker < n) × (i < 16)
IsPlaced n (merging r i snap) = i < n
IsPlaced n (totalling r snap) = Unit
IsPlaced n (evicting r i active) = i < 16
IsPlaced n (expiring r i) = i < 16
IsPlaced n (rotating r) = Unit

-- a request of `HandleFrame`
abbrev pub asks : Frame → ℕ
asks f = if f.direction == request then 1 else 0

-- The requests of a series that a goroutine has to count, or has taken and not yet published.
abbrev pub held : Series → Goroutine → ℕ
held s (entered r f) = asks f
held s (added r f k) = asks f
held s (sweeping r f i) = asks f
held s (counting r f) = asks f
held s (merging r i snap) = waits s snap
held s (totalling r snap) = waits s snap
held s _ = 0

-- before a compare-and-swap that succeeds if `framesSinceSweep` is still `k`
abbrev pub Due : ℕ → Goroutine → Type 0
Due k (added r f n) = n ≡ k
Due k _ = ⊥

pub next_of-IsPlaced :
    (n i size : ℕ) (again : ℕ → Goroutine) (done : Goroutine)
    → (i + 1 < size → IsPlaced n (again (i + 1)))
    → IsPlaced n done
    → IsPlaced n (next_of i size again done)
next_of-IsPlaced n i size again done h d = elim (Bool-cases (ltb (i + 1) size)) [
  | inl more ↦ rw more (h (ground arith))
  | inr last ↦ rw last d
]

pub next_of-held :
    (s : Series) (i size : ℕ) (again : ℕ → Goroutine) (done : Goroutine)
    → held s (again (i + 1)) ≡ held s done
    → held s (next_of i size again done) ≡ held s done
next_of-held s i size again done e = elim (Bool-cases (ltb (i + 1) size)) [
  | inl more ↦ rw more e
  | inr last ↦ rw last refl
]

module _ {F : Type 0} where
  -- a section on a shard
  pub with_shard-IsSettled :
      {n : ℕ} (c : Collector) (i : ℕ) (f : Shard → Shard × List (Event F))
      → IsSettled n c
      → i < 16
      → ((sh : Shard) → IsValidShard sh → IsValidShard (f sh).0)
      → (sh : Shard) × (with_shard i f c
          ≡ ok (record c { shards = set c.shards i (f sh).0 }, (f sh).1))
        × IsSettled n (record c { shards = set c.shards i (f sh).0 })
  unfolding with_shard
  with_shard-IsSettled {n} c i f w lt keeps =
      let (sh, found) = get_elem?-lt c.shards i (omega (arith, w.0.num_shards)) in
      let valid = All-get IsValidShard c.shards i found w.0.shards in
      (sh, rw found refl, IsSettled-shard c i (f sh).0 w (keeps sh valid))

pub worker-IsSettled :
    {n : ℕ} (c : Collector) (i : ℕ)
    → IsSettled n c
    → i < n
    → (wc : WorkerCounters) × (get_elem? c.workers i ≡ some wc) × IsValidWorker wc
worker-IsSettled {n} c i w lt =
    let (wc, found) = get_elem?-lt c.workers i (omega (arith, w.1)) in
    (wc, found, All-get IsValidWorker c.workers i found w.0.workers)
