-- ===== src/Load/Report.antt =====
-- scripts/ntp-load/main.go: the result of `run`. What it does with floating-point numbers is a
-- parameter; a round trip is an exact number of microseconds.
use ntp_server.Base.{
  ℕ, ◌+◌, ◌-◌, ◌/◌, ◌%◌, ◌^◌, List, [], ◌∷◌, ◌++◌, map, get_elem?, length, ltb, leb, nat_eqb,
  if◌then◌else◌, Run, ok, or_panic, ◌>>=◌, sum_of, Bool,
}
use ntp_server.Base.Int.{ℤ, pos, negsuc, sub_ℕ}
use ntp_server.Load.Worker.{LoadWorker, sent_by}

-- `ceil_part p n` is `int(math.Ceil(p * float64(n)))` for `p` hundredths, `percent a b` is
-- `100 * float64(a) / float64(b)`, and `per_second n d` is `float64(n) / d.Seconds()`.
pub record FloatLib (F : Type 0) : Type 0 where
  pub zero_float : F
  pub ceil_part : ℕ → ℕ → ℕ
  pub percent : ℕ → ℕ → F
  pub per_second : ℕ → ℕ → F

-- `Stats`
pub record Stats (F : Type 0) : Type 0 where
  pub sent : ℕ
  pub received : ℕ
  pub loss_percent : F
  pub achieved_rate : F
  pub p50 : ℕ
  pub p95 : ℕ
  pub p99 : ℕ
  pub max_us : ℕ

-- `if idx < 0`
abbrev pub at_least_0 : ℤ → ℕ
at_least_0 (pos i) = i
at_least_0 (negsuc n) = 0

-- the index of the element of rank `rank`
unfoldable pub index_of : ℕ → ℕ → ℕ
index_of rank count =
    let idx = at_least_0 (sub_ℕ rank 1) in if leb count idx then count - 1 else idx

-- the round trips of all workers, in microseconds
unfoldable pub all_rtts : List LoadWorker → List ℕ
all_rtts [] = []
all_rtts (w ∷ ws) = map (λ d. d / 1000) w.rtts ++ all_rtts ws

-- time since the start, less the timeout, or else the duration
unfoldable pub elapsed_of : ℕ → ℕ → ℕ → ℕ
elapsed_of since timeout duration = if ltb timeout since then since - timeout else duration

-- `stats.MaxUS` of the sorted round trips
unfoldable pub max_rtt : List ℕ → Run ℕ
max_rtt rtts = if ltb 0 (length rtts) then or_panic (get_elem? rtts (length rtts - 1)) else ok 0

module _ {F : Type 0} (floats : FloatLib F) where
  -- `percentile`
  unfoldable pub percentile : List ℕ → ℕ → Run ℕ
  percentile sorted p =
      if nat_eqb (length sorted) 0
      then ok 0
      else or_panic
          (get_elem? sorted (index_of (floats.ceil_part p (length sorted)) (length sorted)))

  -- `stats.LossPercent`; the subtraction is one of `uint64`
  unfoldable pub loss_of : ℕ → ℕ → F
  loss_of sent received =
      if ltb 0 sent
      then floats.percent ((sent + 2 ^ 64 - received) % 2 ^ 64) sent
      else floats.zero_float

  module _ (sort : (ℕ → ℕ → Bool) → List ℕ → List ℕ) where
    -- what `run` returns, after its goroutines have ended
    unfoldable pub stats_of : ℕ → List LoadWorker → ℕ → Run (Stats F)
    stats_of elapsed workers received =
        let sent = sum_of sent_by workers % 2 ^ 64 in
        let rtts = sort ltb (all_rtts workers) in
        percentile rtts 50 >>= λ p50. percentile rtts 95 >>= λ p95. percentile rtts 99 >>= λ p99.
        max_rtt rtts >>= λ max_us. ok (record {
          sent = sent;
          received = received;
          loss_percent = loss_of sent received;
          achieved_rate = floats.per_second sent elapsed;
          p50 = p50;
          p95 = p95;
          p99 = p99;
          max_us = max_us;
        })
