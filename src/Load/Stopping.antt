-- ===== src/Load/Stopping.antt =====
-- How `sendLoop` and `recvLoop` of scripts/ntp-load/main.go end once `stop` and `done` are closed.
use ntp_server.Base.{ℕ, ◌+◌, ◌≤◌, ◌≡◌, refl, ◌⊎◌, inl, inr, Option, none, some, arith, nat_eq}
use ntp_server.Load.Worker.{
  Sending, ready, wrote, writing, unwritten, Receiving, reading, matched, counted, step,
  step_worker,
}
use ntp_server.Load.Conserved.{Stopped}
use ntp_server.Load.Channels.{
  Pacing, at_round, in_round, send_over, at_send, in_send, in_flight, Listening, at_read, in_read,
  in_keep, read_over, Looping, Channels, sees_stop, writes, counts, forgets, paces, begins,
  sees_done, misses, adds, keeps, Move, sends, reads, new_looping, with_event, send_move, read_move,
  move, Went, here, next,
}
use ntp_server.Load.Halting.{
  Aligned, Tuned, IsAligned, IsClosed, left, move-LowersIf, new_looping-IsAligned, left-bound,
}

module _ (start interval : ℕ) where
  Went-IsAligned :
      {P : Channels → Type 0} {a : Looping} {k : ℕ} {b : Looping}
      → IsAligned a
      → Went start interval P a k b
      → IsAligned b
  Went-IsAligned v here = v
  Went-IsAligned v (next {k} {b} {u} {more} m ch received before p e) =
      let w = Went-IsAligned v before in
      let lower = move-LowersIf start interval m ch b received w in
      let lowered = rw e at lower in lowered.0

  Went-left :
      {a : Looping} {k : ℕ} {b : Looping}
      → IsAligned a
      → Went start interval IsClosed a k b
      → k + left b ≤ left a
  Went-left v here = omega arith
  Went-left v (next {k} {b} {u} {more} m ch received before closed e) =
      let w = Went-IsAligned v before in
      let lower = move-LowersIf start interval m ch b received w in
      let lowered = rw e at lower in
      let less = lowered.1 closed in omega (arith, less, Went-left v before)

abbrev pub Happens : Option (Looping × ℕ) → Type 0
Happens none = ⊥
Happens (some p) = Unit

-- Some move is possible.
abbrev pub CanMove : ℕ → ℕ → Channels → Looping → ℕ → Type 0
CanMove start interval ch l received = (m : Move) × Happens (move start interval m ch l received)

-- Both loops have returned, and nothing is on its way.
pub record IsOver (l : Looping) : Type 0 where
  pub pacing : l.pacing ≡ send_over
  pub listening : l.listening ≡ read_over
  pub stopped : Stopped l.worker

module _ (start interval : ℕ) (ch : Channels) (l : Looping) (received : ℕ) where
  send-progress :
      (p : Pacing) (s : Sending)
      → l.pacing ≡ p
      → l.worker.sending ≡ s
      → Aligned p s
      → ((p ≡ send_over) × (s ≡ ready)) ⊎ CanMove start interval ch l received
  unfolding move send_move with_event step_worker step
  send-progress send_over ready e f a = inl (refl, refl)
  send-progress at_round ready e f a = inr (sends sees_stop, rw e tt)
  send-progress in_round ready e f a = inr (sends (paces 0), rw e tt)
  send-progress (at_send k) ready e f a = inr (sends sees_stop, rw e tt)
  send-progress (in_send k) ready e f a = inr (sends (begins 0), rw (e, f) tt)
  send-progress (in_flight k) (writing c) e f a = inr (sends writes, rw (e, f) tt)
  send-progress (in_flight k) wrote e f a = inr (sends counts, rw (e, f) tt)
  send-progress (in_flight k) (unwritten c) e f a = inr (sends forgets, rw (e, f) tt)
  send-progress _ _ e f a = absurd a

  read-progress :
      (q : Listening) (t : Receiving)
      → l.listening ≡ q
      → l.worker.receiving ≡ t
      → Tuned q t
      → ((q ≡ read_over) × (t ≡ reading)) ⊎ CanMove start interval ch l received
  unfolding move read_move with_event step_worker step
  read-progress read_over reading e f q = inl (refl, refl)
  read-progress at_read reading e f q = inr (reads sees_done, rw e tt)
  read-progress in_read reading e f q = inr (reads misses, rw e tt)
  read-progress in_keep (matched rtt) e f q = inr (reads adds, rw (e, f) tt)
  read-progress in_keep (counted rtt) e f q = inr (reads keeps, rw (e, f) tt)
  read-progress _ _ e f q = absurd q

-- However the loops of a worker have gone on, whatever their `select`s have seen: once `stop` and
-- `done` are closed they make at most eight more moves, and as long as not both
-- have returned, one of them can make a move, whatever `recvCount` is; when both have, no send and
-- no round trip is left halfway.
pub Went-IsOver :
    (start interval i : ℕ) {P : Channels → Type 0} {j k : ℕ} {a b : Looping} (ch : Channels)
    (received : ℕ)
    → Went start interval P (new_looping i) j a
    → Went start interval IsClosed a k b
    → (k ≤ 8) × (IsOver b ⊎ CanMove start interval ch b received)
Went-IsOver start interval i {P} {j} {k} {a} {b} ch received before after =
    let v = Went-IsAligned start interval (new_looping-IsAligned i) before in
    let w = Went-IsAligned start interval v after in
    (
      omega (arith, Went-left start interval v after, left-bound a),
      elim (send-progress start interval ch b received b.pacing b.worker.sending refl refl w.0) [
        | inr goes ↦ inr goes
        | inl (sent, idle) ↦
            elim (read-progress start interval ch b received b.listening b.worker.receiving refl
              refl w.1) [
                | inr goes ↦ inr goes
                | inl (heard, quiet) ↦
                    inl (record { pacing = sent; listening = heard; stopped = (idle, quiet) })
              ]
      ],
    )
