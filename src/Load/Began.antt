-- ===== src/Load/Began.antt =====
-- How `run` of scripts/ntp-load/main.go begins, or fails.
use ntp_server.Base.{
  ℕ, zero, suc, ◌+◌, ◌≤◌, ◌<◌, ◌≡◌, refl, ap, ◌⊎◌, inl, inr, true, false, Option, none, some, List,
  [], ◌∷◌, ◌++◌, ltb, length, length-append, get_elem?, GoString, arith, Bool-cases, Option-cases,
  if◌then◌else◌, Bool, Run, ok, panic, ◌>>=◌, Returns,
}
use ntp_server.Base.Int.{ℤ, pos, negsuc}
use ntp_server.Load.Setup.{
  Config, NetCalls, RateLib, bad_rate, bad_server, unresolved, not_dialed, Dialed, opened, closed,
  Begun, began, failed, resolve_server, worker_count, dial_workers, interval_of, begin_run,
  at_least_1, capacity_of, begin_dialed,
}

-- The list of what the first calls of `dial` returned, each a socket.
abbrev pub AreDialed : {S : Type 0} → (ℕ → Option S) → ℕ → List S → Type 0
AreDialed dial n sockets = (length sockets ≡ n) × ((i : ℕ) → i < n → dial i ≡ get_elem? sockets i)

-- What `dial_workers` of `n` workers returns: all of the sockets; or the first call that failed,
-- and all of the sockets before it.
abbrev pub IsDialed : {S : Type 0} → (ℕ → Option S) → ℕ → Dialed S → Type 0
IsDialed dial n (opened sockets) = AreDialed dial n sockets
IsDialed dial n (closed j prev) = (j < n) × (dial j ≡ none) × AreDialed dial j prev

get_elem?-append_last :
    {S : Type 0} (xs : List S) (s : S) (i : ℕ)
    → i < length xs + 1
    → get_elem? (xs ++ (s ∷ [])) i ≡ (if ltb i (length xs) then get_elem? xs i else some s)
get_elem?-append_last [] s zero h = refl
get_elem?-append_last [] s (suc i) h = absurd (omega arith)
get_elem?-append_last (x ∷ xs) s zero h = ground arith
get_elem?-append_last (x ∷ xs) s (suc i) h = ground (arith, get_elem?-append_last xs s i)

AreDialed-append_last :
    {S : Type 0} (dial : ℕ → Option S) (i : ℕ) (prev : List S) (s : S)
    → dial i ≡ some s
    → AreDialed dial i prev
    → AreDialed dial (i + 1) (prev ++ (s ∷ []))
AreDialed-append_last dial i prev s e h = (
  omega (arith, h.0, length-append prev (s ∷ [])),
  λ j below. elim (Bool-cases (ltb j (length prev))) [
    | inl old ↦ ground (arith, get_elem?-append_last prev s j, h.0, h.1 j)
    | inr last ↦
        let same : j ≡ i = ground (arith, h.0) in
        ground (arith, get_elem?-append_last prev s j, h.0, ap dial same)
  ],
)

dial_workers-IsDialed :
    {S : Type 0} (dial : ℕ → Option S) (count n i : ℕ) (prev : List S)
    → i + n ≡ count
    → AreDialed dial i prev
    → Returns (dial_workers true dial n i prev) (IsDialed dial count)
unfolding dial_workers
dial_workers-IsDialed dial count zero i prev all h =
    (opened prev, refl, (omega (arith, h.0), λ j below. h.1 j (omega arith)))
dial_workers-IsDialed dial count (suc n) i prev all h = elim (Option-cases (dial i)) [
  | inl failed_here ↦
      rw (dial_workers, failed_here) (closed i prev, refl, (omega arith, failed_here, h))
  | inr (s, e) ↦
      let more : AreDialed dial (i + 1) (prev ++ (s ∷ [])) =
        AreDialed-append_last dial i prev s e h in
      rw (dial_workers, e)
        (dial_workers-IsDialed dial count n (i + 1) (prev ++ (s ∷ [])) (omega arith) more)
]

at_least_1-positive : (z : ℤ) → 1 ≤ at_least_1 z
unfolding at_least_1
at_least_1-positive (pos n) = ground arith
at_least_1-positive (negsuc n) = omega arith

worker_count-positive : (z : ℤ) → 1 ≤ worker_count z
unfolding worker_count
worker_count-positive (pos n) = ground arith
worker_count-positive (negsuc n) = omega arith

module _ {F S : Type 0} (rates : RateLib F) (net : NetCalls S) where
  -- the ways in which a run begins or fails
  abbrev pub HasBegun : Config F → Begun S → Type 0
  HasBegun cfg (began interval sockets) =
      (rates.at_most_0 cfg.rate ≡ false)
      × ((server : GoString) × (resolve_server net.splits cfg.server ≡ some server)
          × (net.resolves server ≡ true))
      × (1 ≤ interval)
      × (1 ≤ length sockets)
      × (net.makes (capacity_of rates cfg (worker_count cfg.workers)) ≡ true)
      × AreDialed net.dial (worker_count cfg.workers) sockets
  HasBegun cfg (failed bad_rate prev) = (rates.at_most_0 cfg.rate ≡ true) × (prev ≡ [])
  HasBegun cfg (failed bad_server prev) =
      (resolve_server net.splits cfg.server ≡ none) × (prev ≡ [])
  HasBegun cfg (failed unresolved prev) =
      ((server : GoString) × (resolve_server net.splits cfg.server ≡ some server)
        × (net.resolves server ≡ false))
      × (prev ≡ [])
  HasBegun cfg (failed (not_dialed i) prev) =
      (i < worker_count cfg.workers) × (net.dial i ≡ none) × AreDialed net.dial i prev

  -- or it panics, since the slice of the workers, or that for the round trips of the first one,
  -- cannot be made
  abbrev pub HasRun : Config F → Run (Begun S) → Type 0
  HasRun cfg (ok b) = HasBegun cfg b
  HasRun cfg panic =
      (rates.at_most_0 cfg.rate ≡ false)
      × ((net.has_room (worker_count cfg.workers) ≡ false)
          ⊎ (((s : S) × (net.dial 0 ≡ some s))
              × (net.makes (capacity_of rates cfg (worker_count cfg.workers)) ≡ false)))

  dialed-HasBegun :
      (cfg : Config F) (server : GoString) (d : Dialed S)
      → rates.at_most_0 cfg.rate ≡ false
      → resolve_server net.splits cfg.server ≡ some server
      → net.resolves server ≡ true
      → net.makes (capacity_of rates cfg (worker_count cfg.workers)) ≡ true
      → IsDialed net.dial (worker_count cfg.workers) d
      → HasBegun cfg (begin_dialed rates cfg.rate (worker_count cfg.workers) d)
  unfolding interval_of begin_dialed
  dialed-HasBegun cfg server (opened sockets) valid known reached fits all = (
    valid,
    (server, known, reached),
    at_least_1-positive _,
    omega (arith, all.0, worker_count-positive cfg.workers),
    fits,
    all,
  )
  dialed-HasBegun cfg server (closed i prev) valid known reached fits part = part

  -- the loop over the workers, when the slices can be made and when they cannot
  dialing-HasRun :
      (cfg : Config F) (server : GoString) (workers : ℕ) (fits : Bool)
      → rates.at_most_0 cfg.rate ≡ false
      → resolve_server net.splits cfg.server ≡ some server
      → net.resolves server ≡ true
      → net.makes (capacity_of rates cfg (worker_count cfg.workers)) ≡ fits
      → worker_count cfg.workers ≡ workers
      → HasRun cfg (
          dial_workers fits net.dial workers 0 [] >>= λ d.
          ok (begin_dialed rates cfg.rate (worker_count cfg.workers) d))
  unfolding dial_workers begin_dialed
  dialing-HasRun cfg server zero fits valid known reached made e =
      absurd (omega (arith, e, worker_count-positive cfg.workers))
  dialing-HasRun cfg server (suc n) true valid known reached made e =
      let (d, run, dialed) =
        dial_workers-IsDialed net.dial (worker_count cfg.workers) (suc n) 0 [] (omega (arith, e))
          (refl, λ j below. absurd (omega arith)) in
      rw run (dialed-HasBegun cfg server d valid known reached made dialed)
  dialing-HasRun cfg server (suc n) false valid known reached made e =
      elim (Option-cases (net.dial 0)) [
        | inl failed_here ↦
            rw (dial_workers, failed_here)
              (omega (arith, e), failed_here, (refl, λ j below. absurd (omega arith)))
        | inr (s, dialed) ↦ rw (dial_workers, dialed) (valid, inr ((s, dialed), made))
      ]

  -- How `run` begins: with a rate that is not at most 0 (a NaN is none), for a server that
  -- resolves, with an interval of at least a nanosecond and the sockets of all workers, of which
  -- there is at least one; or it fails for the reason that it returns, and has closed exactly the
  -- sockets that it opened; or it panics, since `make` refuses the slice of that many workers,
  -- or, after a first call of `DialUDP` that succeeded, the capacity of the slice for the round
  -- trips.
  pub begin_run-HasRun : (cfg : Config F) → HasRun cfg (begin_run rates net cfg)
  unfolding begin_run
  begin_run-HasRun cfg = elim (Bool-cases (rates.at_most_0 cfg.rate)) [
    | inl bad ↦ rw (begin_run, bad) (bad, refl)
    | inr valid ↦ elim (Option-cases (resolve_server net.splits cfg.server)) [
      | inl unknown ↦ rw (begin_run, valid, unknown) (unknown, refl)
      | inr (server, known) ↦ elim (Bool-cases (net.resolves server)) [
        | inr unreached ↦ rw (begin_run, valid, known, unreached) ((server, known, unreached), refl)
        | inl reached ↦ elim (Bool-cases (net.has_room (worker_count cfg.workers))) [
          | inr full ↦ rw (begin_run, valid, known, reached, full) (valid, inl full)
          | inl room ↦
              rw (begin_run, valid, known, reached, room)
                (dialing-HasRun cfg server (worker_count cfg.workers) _ valid known reached refl
                  refl)
        ]
      ]
    ]
  ]
