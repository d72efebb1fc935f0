-- ===== src/Load/Halting.antt =====
-- One move of `sendLoop` or `recvLoop` of scripts/ntp-load/main.go: where the loops stand, and how
-- near to their ends.
use ntp_server.Base.{
  ℕ, zero, suc, ◌+◌, ◌≤◌, ◌≡◌, refl, inl, inr, true, Option, none, some, List, arith, Option-cases,
  Bool-cases, nat_eq, sym,
}
use mathlib.Core.Path.{subst}
use ntp_server.Base.GoMap.{lookup}
use ntp_server.Load.Packet.{cookie_of_reply}
use ntp_server.Load.Pace.{Turn, turn, wait, burst}
use ntp_server.Load.Worker.{
  Sending, ready, wrote, writing, unwritten, Receiving, reading, matched, counted, LoadWorker,
  begin_send, forget_send, match_reply, read, step, step_worker, new_load_worker,
}
use ntp_server.Load.Channels.{
  Pacing, at_round, in_round, send_over, at_send, in_send, in_flight, Listening, at_read, in_read,
  in_keep, read_over, Looping, Channels, SendMove, sees_stop, writes, fails_write, counts, forgets,
  paces, begins, ReadMove, sees_done, misses, adds, keeps, gets, Move, sends, reads, new_looping,
  next_send, with_event, send_move, after_reply, read_move, move,
}

-- a send is on its way exactly where `sendLoop` is in one

abbrev pub Aligned : Pacing → Sending → Type 0
Aligned (in_flight k) ready = ⊥
Aligned (in_flight k) s = Unit
Aligned p ready = Unit
Aligned p s = ⊥

abbrev pub Tuned : Listening → Receiving → Type 0
Tuned in_keep reading = ⊥
Tuned in_keep t = Unit
Tuned q reading = Unit
Tuned q t = ⊥

abbrev pub IsAligned : Looping → Type 0
IsAligned l = Aligned l.pacing l.worker.sending × Tuned l.listening l.worker.receiving

abbrev pub IsClosed : Channels → Type 0
IsClosed ch = (ch.stop ≡ true) × (ch.done ≡ true)

-- how many moves `sendLoop` (or `recvLoop`) still makes, at most, once its channel is closed
pub send_left : Pacing → Sending → ℕ
send_left at_round s = 1
send_left in_round s = 2
send_left send_over s = 0
send_left (at_send k) s = 1
send_left (in_send k) s = 4
send_left (in_flight k) (writing c) = 3
send_left (in_flight k) s = 2

pub read_left : Listening → Receiving → ℕ
read_left at_read t = 1
read_left in_read t = 4
read_left read_over t = 0
read_left in_keep (matched rtt) = 3
read_left in_keep t = 2

abbrev pub left : Looping → ℕ
left l = send_left l.pacing l.worker.sending + read_left l.listening l.worker.receiving

-- what a move keeps, and that it comes nearer to the end once the channels are closed
abbrev pub LowersIf : Channels → ℕ → Option (Looping × ℕ) → Type 0
LowersIf ch n none = Unit
LowersIf ch n (some p) = IsAligned p.0 × (IsClosed ch → suc (left p.0) ≤ n)

next_send-Aligned : (k : ℕ) → Aligned (next_send k) ready
unfolding next_send
next_send-Aligned zero = tt
next_send-Aligned (suc k) = tt

send_left-next_send : (k : ℕ) (s : Sending) → send_left (next_send k) s ≡ 1
unfolding next_send send_left
send_left-next_send zero s = refl
send_left-next_send (suc k) s = refl

-- before a round or a send, with one move to make
abbrev Waits : Pacing → Type 0
Waits p = Aligned p ready × (send_left p ready ≡ 1)

after_turn :
    (t : Turn)
    → Waits (elim t as (λ x. Pacing) [ wait sleep ↦ at_round | burst batch ↦ next_send batch ])
unfolding send_left
after_turn (wait sleep) = (tt, refl)
after_turn (burst batch) = (next_send-Aligned batch, send_left-next_send batch ready)

module _ (start interval : ℕ) (ch : Channels) (l : Looping) (received : ℕ)
    (q : Tuned l.listening l.worker.receiving) where
  send_move-LowersIf :
      (m : SendMove) (p : Pacing) (s : Sending)
      → l.pacing ≡ p
      → l.worker.sending ≡ s
      → Aligned p s
      → LowersIf ch
          (send_left p s + read_left l.listening l.worker.receiving)
          (send_move start interval m p ch l received)
  unfolding send_move with_event step_worker step send_left begin_send forget_send
  send_move-LowersIf sees_stop at_round ready e f a = elim (Bool-cases ch.stop) [
    | inl closed ↦ rw (closed, f) ((tt, q), λ c. omega arith)
    | inr goes ↦ rw (goes, f) ((tt, q), λ c. absurd (cc))
  ]
  send_move-LowersIf sees_stop (at_send k) ready e f a = elim (Bool-cases ch.stop) [
    | inl closed ↦ rw (closed, f) ((tt, q), λ c. omega arith)
    | inr goes ↦ rw (goes, f) ((tt, q), λ c. absurd (cc))
  ]
  send_move-LowersIf (paces now) in_round ready e f a =
      let p = after_turn (turn start interval l.index now) in
      rw f ((p.0, q), λ c. omega (arith, p.1))
  send_move-LowersIf (begins now) (in_send k) ready e f a = rw f ((tt, q), λ c. omega arith)
  send_move-LowersIf writes (in_flight k) (writing c) e f a = rw (e, f) ((tt, q), λ c. omega arith)
  send_move-LowersIf fails_write (in_flight k) (writing c) e f a =
      rw (e, f) ((tt, q), λ c. omega arith)
  send_move-LowersIf counts (in_flight k) wrote e f a =
      rw f ((next_send-Aligned k, q), λ c. omega (arith, send_left-next_send k ready))
  send_move-LowersIf forgets (in_flight k) (unwritten c) e f a =
      rw f ((next_send-Aligned k, q), λ c. omega (arith, send_left-next_send k ready))
  send_move-LowersIf _ _ _ e f a = ground arith

step_worker-read :
    (reply : List ℕ) (now : ℕ) (w : LoadWorker) (received : ℕ)
    → w.receiving ≡ reading
    → step_worker (read reply now) w received
      ≡ some (match_reply (cookie_of_reply reply) now w, received)
unfolding step_worker step
step_worker-read reply now w received f = rw f refl

with_event-read :
    (reply : List ℕ) (now : ℕ) (w : LoadWorker) (received : ℕ) (place : LoadWorker → Looping)
    → w.receiving ≡ reading
    → with_event (read reply now) w received place
      ≡ some (place (match_reply (cookie_of_reply reply) now w), received)
unfolding with_event
with_event-read reply now w received place f =
    rw (step_worker-read reply now w received f, with_event) refl

module _ (ch : Channels) (l : Looping) (received : ℕ) (a : Aligned l.pacing l.worker.sending) where
  abbrev ReadLowers : Listening → Receiving → Option (Looping × ℕ) → Type 0
  ReadLowers q t o = LowersIf ch (send_left l.pacing l.worker.sending + read_left q t) o

  -- after a reply to a pending request, or to none
  gets-LowersIf :
      (now : ℕ) (cookie : Option ℕ)
      → l.worker.receiving ≡ reading
      → ReadLowers in_read reading (
          some (
            (record l {
              worker = match_reply cookie now l.worker;
              listening = after_reply (match_reply cookie now l.worker).receiving;
            }),
            received,
          ))
  unfolding match_reply after_reply read_left
  gets-LowersIf now none f = rw f ((a, tt), λ c. omega arith)
  gets-LowersIf now (some cookie) f = elim (Option-cases (lookup cookie l.worker.pending)) [
    | inl absent ↦ rw (match_reply, absent, f) ((a, tt), λ c. omega arith)
    | inr (t, found) ↦ rw (match_reply, found) ((a, tt), λ c. omega arith)
  ]

  read_move-LowersIf-gets :
      (reply : List ℕ) (now : ℕ)
      → l.worker.receiving ≡ reading
      → ReadLowers in_read reading (read_move (gets reply now) in_read ch l received)
  unfolding read_move
  read_move-LowersIf-gets reply now f =
      subst (ReadLowers in_read reading)
        (sym (
          with_event-read reply now l.worker received
            (λ w. record l { worker = w; listening = after_reply w.receiving }) f))
        (gets-LowersIf now (cookie_of_reply reply) f)

  read_move-LowersIf :
      (m : ReadMove) (q : Listening) (t : Receiving)
      → l.listening ≡ q
      → l.worker.receiving ≡ t
      → Tuned q t
      → ReadLowers q t (read_move m q ch l received)
  unfolding read_move with_event step_worker step read_left
  read_move-LowersIf sees_done at_read reading e f q = elim (Bool-cases ch.done) [
    | inl closed ↦ rw (closed, f) ((a, tt), λ c. omega arith)
    | inr goes ↦ rw (goes, f) ((a, tt), λ c. absurd (cc))
  ]
  read_move-LowersIf misses in_read reading e f q = rw f ((a, tt), λ c. omega arith)
  read_move-LowersIf (gets reply now) in_read reading e f q = read_move-LowersIf-gets reply now f
  read_move-LowersIf adds in_keep (matched rtt) e f q = rw (e, f) ((a, tt), λ c. omega arith)
  read_move-LowersIf keeps in_keep (counted rtt) e f q = rw f ((a, tt), λ c. omega arith)
  read_move-LowersIf _ _ _ e f q = ground arith

pub move-LowersIf :
    (start interval : ℕ) (m : Move) (ch : Channels) (l : Looping) (received : ℕ)
    → IsAligned l
    → LowersIf ch (left l) (move start interval m ch l received)
unfolding move
move-LowersIf start interval (sends m) ch l received (a, q) =
    send_move-LowersIf start interval ch l received q m l.pacing l.worker.sending refl refl a
move-LowersIf start interval (reads m) ch l received (a, q) =
    read_move-LowersIf ch l received a m l.listening l.worker.receiving refl refl q

pub new_looping-IsAligned : (i : ℕ) → IsAligned (new_looping i)
unfolding new_looping new_load_worker
new_looping-IsAligned i = (tt, tt)

send_left-bound : (p : Pacing) (s : Sending) → send_left p s ≤ 4
unfolding send_left
send_left-bound p s = ground arith

read_left-bound : (q : Listening) (t : Receiving) → read_left q t ≤ 4
unfolding read_left
read_left-bound q t = ground arith

pub left-bound : (l : Looping) → left l ≤ 8
left-bound l = omega (
  arith,
  send_left-bound l.pacing l.worker.sending,
  read_left-bound l.listening l.worker.receiving,
)
