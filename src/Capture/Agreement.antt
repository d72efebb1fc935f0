-- ===== src/Capture/Agreement.antt =====
-- The loops of `RunWorker` of exporter/internal/capture/manager.go and the sockets of the manager
-- agree.
use ntp_server.Base.{
  ℕ, zero, suc, ◌+◌, ◌<◌, ◌≡◌, ◌≢◌, ◌∙◌, refl, sym, ap, inl, inr, Bool, true, false, some, List, [],
  ◌∷◌, map, get_elem?, get_elem?-some-lt, get_elem?-set_self, get_elem?-set_ne, set, length,
  length-set, arith, leb, nat_eqb, if◌then◌else◌, Bool-cases, Option-cases, Returns, sum_of,
  sum_of-set, part-le_sum,
}
use ntp_server.Capture.Worker.{Worker, loop_err_reopen_after, start}
use ntp_server.Capture.Sockets.{Attempt, Ledger, new_socket, close_in}
use ntp_server.Capture.Owned.{
  is_one, occurrences, IsLedger, new_socket-IsNew, close_in-IsLedger, occurrences-close_socket,
}
use ntp_server.Capture.Loops.{
  Stage, top, reading, sleeping, ended, swapping, closing, Looper, Capturing, Happening, checks,
  times_out, gets_packet, swaps, closes, wakes, stops, fails, put_looper, fail_read, loop_step,
}

-- the socket that a goroutine alone knows: the new one before the exchange, or the old one after it
abbrev pub in_hand : ℕ → Stage → ℕ
in_hand j (swapping new) = is_one j new
in_hand j (closing old new) = is_one j old
in_hand j _ = 0

-- The variable `sock` is the manager's, but between the exchange and the return of `reopenWorker`.
abbrev pub current : Stage → ℕ → ℕ
current (closing old new) sock = new
current _ sock = sock

abbrev pub hand_of : ℕ → Looper → ℕ
hand_of j l = in_hand j l.stage

-- each goroutine has the socket of its index
abbrev pub Agree : List ℕ → List Looper → Type 0
Agree sockets loopers =
    (i : ℕ) (l : Looper)
    → get_elem? loopers i ≡ some l
    → get_elem? sockets i ≡ some (current l.stage l.sock)

pub record IsCapturing (k₀ : Ledger) (s : Capturing) : Type 0 where
  pub ledger : IsLedger s.ledger
  pub size : length s.loopers ≡ length s.sockets
  pub owns :
      (j : ℕ)
      → occurrences j s.ledger.held
        ≡ occurrences j k₀.held + (occurrences j s.sockets + sum_of (hand_of j) s.loopers)
  pub agree : Agree s.sockets s.loopers

Agree-set :
    (sockets sockets' : List ℕ) (loopers : List Looper) (i : ℕ) (l' : Looper)
    → i < length loopers
    → get_elem? sockets' i ≡ some (current l'.stage l'.sock)
    → ((j : ℕ) → i ≢ j → get_elem? sockets' j ≡ get_elem? sockets j)
    → Agree sockets loopers
    → Agree sockets' (set loopers i l')
Agree-set sockets sockets' loopers i l' inside here others v j m at_j =
    elim (Bool-cases (nat_eqb i j)) [
      | inl same ↦
          let e : i ≡ j = ground arith in
          let at_i : get_elem? (set loopers i l') i ≡ some m = rw (← e) at at_j in
          let e' : l' ≡ m = cc (get_elem?-set_self loopers i l' inside) in rw (← e, ← e') here
      | inr apart ↦
          let ne : i ≢ j = ground arith in
          others j ne ∙ v j m (sym (get_elem?-set_ne loopers i j l' ne) ∙ at_j)
    ]

-- No socket changes hands in a stage.
abbrev Quiet : Stage → Type 0
Quiet g = ((x : ℕ) → current g x ≡ x) × ((j : ℕ) → in_hand j g ≡ 0)

abbrev at_rest : ((x : ℕ) → ◌≡◌ {A = ℕ} x x) × ((j : ℕ) → ◌≡◌ {A = ℕ} 0 0)
at_rest = (λ x. refl, λ j. refl)

Quiet-if : (b : Bool) (g g' : Stage) → Quiet g → Quiet g' → Quiet (if b then g else g')
Quiet-if true g g' q q' = q
Quiet-if false g g' q q' = q'

abbrev pub starting : ℕ → Looper
starting s = record { stage = top; sock = s; locals = start }

pub hands-started : (j : ℕ) (ss : List ℕ) → sum_of (hand_of j) (map starting ss) ≡ 0
hands-started j [] = refl
hands-started j (s ∷ ss) = omega (arith, hands-started j ss)

pub Agree-started : (ss : List ℕ) → Agree ss (map starting ss)
Agree-started [] i l e = cc
Agree-started (s ∷ ss) zero l e = let e' : starting s ≡ l = cc in rw (← e') refl
Agree-started (s ∷ ss) (suc i) l e = Agree-started ss i l e

module _ {k₀ : Ledger} (s : Capturing) (i : ℕ) (l : Looper) (at : get_elem? s.loopers i ≡ some l)
    (v : IsCapturing k₀ s) where
  -- a step that leaves the sockets of the manager alone
  stay-IsCapturing :
      (l' : Looper) (k : Ledger)
      → current l'.stage l'.sock ≡ current l.stage l.sock
      → IsLedger k
      → ((j : ℕ) → occurrences j k.held + hand_of j l ≡ occurrences j s.ledger.held + hand_of j l')
      → IsCapturing k₀ (put_looper i l' (record s { ledger = k }))
  stay-IsCapturing l' k here w held = record {
    ledger = w;
    size = length-set s.loopers i l' ∙ v.size;
    owns = λ j. omega (arith, v.owns j, held j, sum_of-set (hand_of j) s.loopers i l' at);
    agree =
        Agree-set s.sockets s.sockets s.loopers i l' (get_elem?-some-lt s.loopers i at)
          (v.agree i l at ∙ ap some (sym here)) (λ j ne. refl) v.agree;
  }

  -- `reopenWorker` exchanges the old socket for the new one
  swap-IsCapturing :
      (new : ℕ)
      → l.stage ≡ swapping new
      → Returns (loop_step swaps (swapping new) i l s) (IsCapturing k₀)
  unfolding loop_step
  swap-IsCapturing new e =
      let old : get_elem? s.sockets i ≡ some l.sock =
        v.agree i l at ∙ ap (λ g. some (current g l.sock)) e in
      let l' = record l { stage = closing l.sock new } in
      let inside : i < length s.sockets = get_elem?-some-lt s.sockets i old in
      (
        put_looper i l' (record s { sockets = set s.sockets i new }),
        rw old refl,
        record {
          ledger = v.ledger;
          size = length-set s.loopers i l' ∙ v.size ∙ sym (length-set s.sockets i new);
          owns = λ j. omega (
            arith,
            v.owns j,
            ap (in_hand j) e,
            sum_of-set (hand_of j) s.loopers i l' at,
            sum_of-set (is_one j) s.sockets i new old,
          );
          agree =
              Agree-set s.sockets (set s.sockets i new) s.loopers i l'
                (get_elem?-some-lt s.loopers i at) (get_elem?-set_self s.sockets i new inside)
                (λ j ne. get_elem?-set_ne s.sockets i j new ne) v.agree;
        },
      )

  -- `reopenWorker` closes the old socket
  close-IsCapturing :
      (old new : ℕ)
      → l.stage ≡ closing old new
      → IsCapturing k₀ (
          put_looper i
            (record l { stage = top; sock = new })
            (record s { ledger = close_in old s.ledger }))
  close-IsCapturing old new e =
      stay-IsCapturing (record l { stage = top; sock = new }) (close_in old s.ledger)
        (sym (ap (λ g. current g l.sock) e)) (close_in-IsLedger old s.ledger v.ledger)
        (λ j. ground (
          arith,
          occurrences-close_socket j old s.ledger.held,
          v.ledger.once j,
          v.owns j,
          ap (in_hand j) e,
          part-le_sum (hand_of j) s.loopers i l at,
        ))

  -- a failed read
  fail_read-IsCapturing :
      (now : ℕ) (attempt : Attempt)
      → l.stage ≡ reading
      → IsCapturing k₀ (fail_read now attempt i l s)
  unfolding fail_read
  fail_read-IsCapturing now attempt e =
      let new = new_socket-IsNew attempt s.ledger v.ledger in
      let here : current l.stage l.sock ≡ l.sock = ap (λ g. current g l.sock) e in
      let hand = λ (j : ℕ). ap (in_hand j) e in
      elim (Bool-cases (leb loop_err_reopen_after (l.locals.consecutive_errs + 1))) [
        | inr early ↦
            rw (fail_read, early)
              (stay-IsCapturing _ s.ledger (sym here) v.ledger (λ j. omega (arith, hand j)))
        | inl due ↦ elim (Option-cases (new_socket attempt s.ledger).0) [
          | inl fails_too ↦
              let (w, held) = rw fails_too at new in
              rw (fail_read, due, fails_too)
                (stay-IsCapturing _ (new_socket attempt s.ledger).1 (sym here) w
                  (λ j. omega (arith, hand j, held j)))
          | inr (socket, e') ↦
              let (w, held) = rw e' at new in
              rw (fail_read, due, e')
                (stay-IsCapturing _ (new_socket attempt s.ledger).1 (sym here) w
                  (λ j. omega (arith, hand j, held j)))
        ]
      ]

  -- a step from one stage in which no socket changes to another
  rest-IsCapturing :
      (g g' : Stage) (w : Worker)
      → l.stage ≡ g
      → Quiet g
      → Quiet g'
      → IsCapturing k₀ (put_looper i (record l { stage = g'; locals = w }) s)
  rest-IsCapturing g g' w e q q' =
      stay-IsCapturing (record l { stage = g'; locals = w }) s.ledger
        (q'.0 l.sock ∙ sym (q.0 l.sock) ∙ sym (ap (λ g. current g l.sock) e)) v.ledger
        (λ j. omega (arith, ap (in_hand j) e, q.1 j, q'.1 j))

  pub loop_step-IsCapturing :
      (h : Happening) (g : Stage) → l.stage ≡ g → Returns (loop_step h g i l s) (IsCapturing k₀)
  unfolding loop_step
  loop_step-IsCapturing checks top e = (
    _,
    refl,
    rest-IsCapturing top _ l.locals e at_rest (Quiet-if s.stopped ended reading at_rest at_rest),
  )
  loop_step-IsCapturing times_out reading e =
      (_, refl, rest-IsCapturing reading top _ e at_rest at_rest)
  loop_step-IsCapturing gets_packet reading e =
      (_, refl, rest-IsCapturing reading top _ e at_rest at_rest)
  loop_step-IsCapturing (fails now attempt) reading e =
      (_, refl, fail_read-IsCapturing now attempt e)
  loop_step-IsCapturing swaps (swapping new) e = swap-IsCapturing new e
  loop_step-IsCapturing closes (closing old new) e = (_, refl, close-IsCapturing old new e)
  loop_step-IsCapturing wakes sleeping e =
      (_, refl, rest-IsCapturing sleeping top l.locals e at_rest at_rest)
  loop_step-IsCapturing stops sleeping e = (
    _,
    refl,
    rest-IsCapturing sleeping _ l.locals e at_rest
        (Quiet-if s.stopped ended sleeping at_rest at_rest),
  )
  loop_step-IsCapturing _ _ e = (s, refl, v)
