-- ===== src/Capture/Ending.antt =====
-- The loops of `RunWorker` of exporter/internal/capture/manager.go end once the stop channel is
-- closed.
use ntp_server.Base.{
  ℕ, suc, ◌+◌, ◌≤◌, ◌<◌, ◌≡◌, ◌∙◌, ◌⊎◌, refl, ap, inl, inr, true, some, get_elem?, set,
  get_elem?-set_self, get_elem?-set_ne, get_elem?-some-lt, ◌≢◌, nat_eqb, none, leb, arith,
  Bool-cases, Option-cases, List, [], ◌∷◌, All, ok, Returns,
}
use ntp_server.Base.Int.{ℤ}
use ntp_server.Capture.Worker.{loop_err_reopen_after}
use ntp_server.Capture.Sockets.{Attempt, Ledger, Manager, new_socket, open_manager}
use ntp_server.Capture.Owned.{IsLedger, is_one, occurrences}
use ntp_server.Capture.Leaks.{open_manager-IsManaged}
use ntp_server.Capture.Loops.{
  Stage, top, reading, sleeping, ended, swapping, closing, Looper, Capturing, Happening, put_looper,
  checks, times_out, gets_packet, swaps, closes, wakes, stops, fails, fail_read, loop_step, Loops,
}
use ntp_server.Capture.Agreement.{current, IsCapturing, loop_step-IsCapturing}
use ntp_server.Capture.Reading.{Loops-IsCapturing}

-- the happenings that a stage allows
abbrev pub Fits : Happening → Stage → Type 0
Fits checks top = Unit
Fits times_out reading = Unit
Fits gets_packet reading = Unit
Fits (fails now attempt) reading = Unit
Fits swaps (swapping new) = Unit
Fits closes (closing old new) = Unit
Fits wakes sleeping = Unit
Fits stops sleeping = Unit
Fits _ _ = ⊥

-- how many steps a goroutine still takes, at most, once the stop channel is closed
unfoldable pub to_go : Stage → ℕ
to_go ended = 0
to_go top = 1
to_go sleeping = 2
to_go (closing old new) = 2
to_go (swapping new) = 3
to_go reading = 4

abbrev left_of : Looper → ℕ
left_of l = to_go l.stage

-- how many steps the goroutine of index `j` still takes, at most
abbrev left_at : ℕ → List Looper → ℕ
left_at j ls = elim (get_elem? ls j) [ none ↦ 0 | some l ↦ left_of l ]

-- The channel is still closed, the goroutine of index `i` is nearer to its end, and the others are
-- where they were.
abbrev Nearer : ℕ → Capturing → Capturing → Type 0
Nearer i s u =
    (u.stopped ≡ true) × ((j : ℕ) → is_one j i + left_at j u.loopers ≤ left_at j s.loopers)

module _ {k₀ : Ledger} (s : Capturing) (i : ℕ) (l : Looper) (at : get_elem? s.loopers i ≡ some l)
    (halted : s.stopped ≡ true) (v : IsCapturing k₀ s) where
  drops :
      (g : Stage)
      → l.stage ≡ g
      → (l' : Looper) → to_go l'.stage < to_go g
      → (j : ℕ) → is_one j i + left_at j (set s.loopers i l') ≤ left_at j s.loopers
  drops g e l' less j = elim (Bool-cases (nat_eqb i j)) [
    | inl same ↦
        let e' : i ≡ j = ground arith in
        let here = get_elem?-set_self s.loopers i l' (get_elem?-some-lt s.loopers i at) in
        rw (← e', left_at, here, at) (ground (arith, ap to_go e, less))
    | inr apart ↦
        let ne : i ≢ j = ground arith in
        rw (left_at, get_elem?-set_ne s.loopers i j l' ne) (ground arith)
  ]

  fail_read-Nearer :
      (now : ℕ) (attempt : Attempt) → l.stage ≡ reading → Nearer i s (fail_read now attempt i l s)
  unfolding fail_read to_go
  fail_read-Nearer now attempt e =
      elim (Bool-cases (leb loop_err_reopen_after (l.locals.consecutive_errs + 1))) [
        | inr early ↦ rw (fail_read, early) (halted, drops _ e _ (omega arith))
        | inl due ↦ elim (Option-cases (new_socket attempt s.ledger).0) [
          | inl none_new ↦ rw (fail_read, due, none_new) (halted, drops _ e _ (omega arith))
          | inr (socket, some_new) ↦
              rw (fail_read, due, some_new) (halted, drops _ e _ (omega arith))
        ]
      ]

  loop_step-Nearer :
      (h : Happening) (g : Stage)
      → l.stage ≡ g
      → Fits h g
      → Returns (loop_step h g i l s) (Nearer i s)
  unfolding loop_step to_go
  loop_step-Nearer checks top e f = (_, refl, (halted, drops _ e _ (rw halted (omega arith))))
  loop_step-Nearer times_out reading e f = (_, refl, (halted, drops _ e _ (omega arith)))
  loop_step-Nearer gets_packet reading e f = (_, refl, (halted, drops _ e _ (omega arith)))
  loop_step-Nearer (fails now attempt) reading e f = (_, refl, fail_read-Nearer now attempt e)
  loop_step-Nearer swaps (swapping new) e f =
      let old : get_elem? s.sockets i ≡ some l.sock =
        v.agree i l at ∙ ap (λ g. some (current g l.sock)) e in
      (
        put_looper i (record l { stage = closing l.sock new })
            (record s { sockets = set s.sockets i new }),
        rw old refl,
        (halted, drops _ e _ (omega arith)),
      )
  loop_step-Nearer closes (closing old new) e f = (_, refl, (halted, drops _ e _ (omega arith)))
  loop_step-Nearer wakes sleeping e f = (_, refl, (halted, drops _ e _ (omega arith)))
  loop_step-Nearer stops sleeping e f = (_, refl, (halted, drops _ e _ (rw halted (omega arith))))
  loop_step-Nearer _ _ e f = absurd f

-- what can go on at a stage, when something can
abbrev likely : Stage → Happening
likely top = checks
likely reading = times_out
likely sleeping = stops
likely ended = checks
likely (swapping new) = swaps
likely (closing old new) = closes

likely-Fits : (g : Stage) → (g ≡ ended) ⊎ Fits (likely g) g
likely-Fits ended = inl refl
likely-Fits top = inr tt
likely-Fits reading = inr tt
likely-Fits sleeping = inr tt
likely-Fits (swapping new) = inr tt
likely-Fits (closing old new) = inr tt

to_go-bound : (g : Stage) → to_go g ≤ 4
unfolding to_go
to_go-bound ended = omega arith
to_go-bound top = omega arith
to_go-bound reading = omega arith
to_go-bound sleeping = omega arith
to_go-bound (swapping new) = omega arith
to_go-bound (closing old new) = omega arith

left_at-bound : (j : ℕ) (ls : List Looper) → left_at j ls ≤ 4
left_at-bound j ls = elim (Option-cases (get_elem? ls j)) [
  | inl e ↦ rw (left_at, e) (omega arith)
  | inr (l, e) ↦ rw (left_at, e) (to_go-bound l.stage)
]

-- `Winding s goers t`: from `s`, steps that fit lead to `t`, in some order, and `goers` are the
-- indices of the goroutines that took them, the last one first
pub data Winding (s : Capturing) : List ℕ → Capturing → Type 0 where
  still : Winding s [] s
  onward :
      {goers : List ℕ} {t u : Capturing} (i : ℕ) (l : Looper) (h : Happening)
      → Winding s goers t
      → get_elem? t.loopers i ≡ some l
      → Fits h l.stage
      → loop_step h l.stage i l t ≡ ok u
      → Winding s (i ∷ goers) u

-- some goroutine can take a step
abbrev pub CanGo : Capturing → Type 0
CanGo t =
    (i : ℕ) × (l : Looper) × (h : Happening) × (u : Capturing) × (get_elem? t.loopers i ≡ some l)
    × Fits h l.stage
    × (loop_step h l.stage i l t ≡ ok u)

abbrev pub Ended : Looper → Type 0
Ended l = l.stage ≡ ended

-- one that has not ended, or none
find_going :
    (ls : List Looper)
    → All Ended ls
      ⊎ ((i : ℕ) × (l : Looper) × (get_elem? ls i ≡ some l) × Fits (likely l.stage) l.stage)
find_going [] = inl tt
find_going (l ∷ ls) = elim (likely-Fits l.stage) [
  | inr f ↦ inr (0, l, refl, f)
  | inl e ↦ elim (find_going ls) [
    | inl all ↦ inl (e, all)
    | inr (i, m, at, f) ↦ inr (suc i, m, at, f)
  ]
]

Winding-Nearer :
    {k₀ : Ledger} {s t : Capturing} {goers : List ℕ}
    → IsCapturing k₀ s
    → s.stopped ≡ true
    → Winding s goers t
    → IsCapturing k₀ t
      × (t.stopped ≡ true)
      × ((j : ℕ) → occurrences j goers + left_at j t.loopers ≤ left_at j s.loopers)
Winding-Nearer v halted still = (v, halted, λ j. omega arith)
Winding-Nearer {s} v halted (onward {goers} {t} {u} i l h before at f e) =
    let (v', on, near) = Winding-Nearer v halted before in
    let (u', same, w) = loop_step-IsCapturing t i l at v' h l.stage refl in
    let (u'', same', (on', less)) = loop_step-Nearer t i l at on v' h l.stage refl f in
    let e' : u' ≡ u = cc in
    let e'' : u'' ≡ u = cc in
    (rw e' at w, rw e'' at on', λ j. let b = rw e'' at less j in omega (arith, b, near j))

-- From the sockets that `Open` opens for a manager, and from whatever the goroutines of `Run`
-- have then done until the stop channel is closed: they take at most four more steps each,
-- whatever the reads return and whichever sockets fail, and as long as one has not ended, one can
-- take a step, which is no panic.
pub Loops-Ends :
    (ring_bytes num_workers : ℤ) (attempt : ℕ → Attempt) (k₀ : Ledger) {m : Manager} {bytes : ℕ}
    {k : Ledger} {s t : Capturing} {goers : List ℕ}
    → IsLedger k₀
    → open_manager ring_bytes num_workers attempt k₀ ≡ (some (m, bytes), k)
    → Loops m k (ok s)
    → s.stopped ≡ true
    → Winding s goers t
    → ((j : ℕ) → occurrences j goers ≤ 4) × (All Ended t.loopers ⊎ CanGo t)
Loops-Ends ring_bytes num_workers attempt k₀ {m} {bytes} {k} {s} {t} w opened loops halted winding =
    let managed = open_manager-IsManaged ring_bytes num_workers attempt k₀ w in
    let (w', owns, size) = rw opened at managed in
    let (s', same, v) = Loops-IsCapturing k₀ w' owns loops in
    let e : s' ≡ s = cc in
    let (v', on, near) = Winding-Nearer (rw e at v) halted winding in
    (
      λ j. omega (arith, near j, left_at-bound j s.loopers),
      elim (find_going t.loopers) [
        | inl all ↦ inl all
        | inr (i, l, at, f) ↦
            let (u, e'', _) = loop_step-IsCapturing t i l at v' (likely l.stage) l.stage refl in
            inr (i, l, likely l.stage, u, at, f, e'')
      ],
    )
