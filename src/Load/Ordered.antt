-- ===== src/Load/Ordered.antt =====
-- The result of `run` of scripts/ntp-load/main.go: its percentiles, and the loss.
use ntp_server.Base.{
  ℕ, zero, suc, ◌+◌, ◌-◌, ◌%◌, ◌^◌, ◌≤◌, ◌<◌, ◌≡◌, refl, ap, some, false, Bool, List, [], ◌∷◌,
  get_elem?, get_elem?-lt, length, ltb, lt→ltb, nat_eqb, if◌then◌else◌, arith, or_panic, Returns,
  All, All-get, sum_of,
}
use ntp_server.Base.Order.{IsWeakOrder, IsSorted, Sorts}
use ntp_server.Load.Worker.{sent_by, LoadRun, Runs, new_load}
use ntp_server.Load.Conserved.{Stopped, unanswered, Runs-conserves}
use ntp_server.Load.Report.{
  FloatLib, Stats, index_of, all_rtts, max_rtt, percentile, loss_of, stats_of,
}

pub ltb-IsWeakOrder : IsWeakOrder ltb
ltb-IsWeakOrder = record { asym = λ a b h. ground arith; cotrans = λ a b c h k. ground arith }

sorted-le :
    (xs : List ℕ) (i j : ℕ) {a b : ℕ}
    → IsSorted ltb xs
    → i ≤ j
    → get_elem? xs i ≡ some a
    → get_elem? xs j ≡ some b
    → a ≤ b
sorted-le [] i j s h e f = cc
sorted-le (x ∷ xs) zero zero s h e f = ground arith
sorted-le (x ∷ xs) zero (suc j) s h e f =
    let later = All-get (λ y. ltb y x ≡ false) xs j f s.0 in ground arith
sorted-le (x ∷ xs) (suc i) zero s h e f = absurd (omega arith)
sorted-le (x ∷ xs) (suc i) (suc j) s h e f = sorted-le xs i j s.1 (omega arith) e f

index_of-lt : (rank count : ℕ) → 0 < count → index_of rank count < count
unfolding index_of
index_of-lt rank count h = ground arith

index_of-le : (low high count : ℕ) → low ≤ high → index_of low count ≤ index_of high count
unfolding index_of
index_of-le low high count h = ground arith

index_of-last : (rank count : ℕ) → index_of rank count ≤ count - 1
unfolding index_of
index_of-last rank count = ground arith

-- the element at an index, or 0 of an empty list
abbrev pub IsAt : List ℕ → ℕ → ℕ → Type 0
IsAt [] i v = v ≡ 0
IsAt (x ∷ xs) i v = get_elem? (x ∷ xs) i ≡ some v

IsAt-le :
    (xs : List ℕ) (i j : ℕ) {a b : ℕ} → IsSorted ltb xs → i ≤ j → IsAt xs i a → IsAt xs j b → a ≤ b
IsAt-le [] i j s h e f = omega arith
IsAt-le (x ∷ xs) i j s h e f = sorted-le (x ∷ xs) i j s h e f

or_panic-IsAt :
    (xs : List ℕ) (i : ℕ) → i < length xs → Returns (or_panic (get_elem? xs i)) (IsAt xs i)
or_panic-IsAt [] i h = absurd (omega arith)
or_panic-IsAt (x ∷ xs) i h = let (v, e) = get_elem?-lt (x ∷ xs) i h in rw e (v, refl, refl)

max_rtt-IsAt : (xs : List ℕ) → Returns (max_rtt xs) (IsAt xs (length xs - 1))
unfolding max_rtt
max_rtt-IsAt [] = (0, refl, refl)
max_rtt-IsAt (x ∷ xs) =
    rw (lt→ltb 0 (length (x ∷ xs)) (omega arith))
      (or_panic-IsAt (x ∷ xs) (length (x ∷ xs) - 1) (omega arith))

module _ {F : Type 0} (floats : FloatLib F) where
  abbrev pub place_of : ℕ → List ℕ → ℕ
  place_of p xs = index_of (floats.ceil_part p (length xs)) (length xs)

  percentile-IsAt :
      (xs : List ℕ) (p : ℕ) → Returns (percentile floats xs p) (IsAt xs (place_of p xs))
  unfolding percentile
  percentile-IsAt [] p = (0, refl, refl)
  percentile-IsAt (x ∷ xs) p =
      let full : nat_eqb (length (x ∷ xs)) 0 ≡ false = ground arith in
      rw (percentile, full)
        (or_panic-IsAt (x ∷ xs) (place_of p (x ∷ xs)) (index_of-lt _ _ (omega arith)))

  -- What the result of `run` says, if `pending` requests have no answer.
  pub record IsReport (pending : ℕ) (r : Stats F) : Type 0 where
    sent : r.sent ≡ r.received + pending
    loss :
        r.loss_percent ≡ (if ltb 0 r.sent then floats.percent pending r.sent else floats.zero_float)
    p50 : r.p50 ≤ r.p95
    p95 : r.p95 ≤ r.p99
    p99 : r.p99 ≤ r.max_us

  module _ (sort : (ℕ → ℕ → Bool) → List ℕ → List ℕ) (sorts : Sorts sort)
      (rounding : (p q n : ℕ) → p ≤ q → floats.ceil_part p n ≤ floats.ceil_part q n) where
    place_of-le : (p q : ℕ) (xs : List ℕ) → p ≤ q → place_of p xs ≤ place_of q xs
    place_of-le p q xs h = index_of-le _ _ (length xs) (rounding p q (length xs) h)

    loss_of-pending :
        (sent received pending : ℕ)
        → sent ≡ received + pending
        → sent < 2 ^ 64
        → loss_of floats sent received
          ≡ (if ltb 0 sent then floats.percent pending sent else floats.zero_float)
    unfolding loss_of
    loss_of-pending sent received pending e h =
        let lost : (sent + 2 ^ 64 - received) % 2 ^ 64 ≡ pending = omega arith in
        ap (λ n. if ltb 0 sent then floats.percent n sent else floats.zero_float) lost

    -- From the end of any run of the loops in which no request is answered before it is written,
    -- `run` does not panic, the requests it reports as lost are those still pending, and its
    -- percentiles are in order, up to the maximum.
    pub stats_of-IsReport :
        (count elapsed : ℕ) {k : ℕ} {s : LoadRun}
        → k < 2 ^ 48
        → Runs (new_load count) k s
        → All Stopped s.workers
        → sum_of sent_by s.workers < 2 ^ 64
        → Returns
            (stats_of floats sort elapsed s.workers s.received)
            (IsReport (sum_of unanswered s.workers))
    unfolding stats_of
    stats_of-IsReport count elapsed {k} {s} small runs stopped fits =
        let xs = sort ltb (all_rtts s.workers) in
        let sorted = sorts.sorted ltb (all_rtts s.workers) ltb-IsWeakOrder in
        let (p50, e50, at50) = percentile-IsAt xs 50 in
        let (p95, e95, at95) = percentile-IsAt xs 95 in
        let (p99, e99, at99) = percentile-IsAt xs 99 in
        let (top, e_top, at_top) = max_rtt-IsAt xs in
        let (balance, trips) = Runs-conserves count small runs stopped in
        let whole : sum_of sent_by s.workers % 2 ^ 64 ≡ sum_of sent_by s.workers = omega arith in
        rw (stats_of, e50, e95, e99, e_top, whole)
          (
            _,
            refl,
            record {
              sent = balance;
              loss = loss_of-pending _ s.received _ balance fits;
              p50 =
                  IsAt-le xs (place_of 50 xs) (place_of 95 xs) sorted
                    (place_of-le 50 95 xs (omega arith)) at50 at95;
              p95 =
                  IsAt-le xs (place_of 95 xs) (place_of 99 xs) sorted
                    (place_of-le 95 99 xs (omega arith)) at95 at99;
              p99 =
                  IsAt-le xs (place_of 99 xs) (length xs - 1) sorted (index_of-last _ (length xs))
                    at99 at_top;
            },
          )
