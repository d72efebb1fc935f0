-- ===== src/Load/Channels.antt =====
-- scripts/ntp-load/main.go: `sendLoop` and `recvLoop` of one worker around the events of
-- Load/Worker, with the channels `stop` and `done`, the batches and the failed reads. Whether a
-- channel is closed when a `select` looks at it, and the time, are part of a move.
use ntp_server.Base.{ℕ, zero, suc, ◌+◌, ◌≡◌, Bool, Option, none, some, List, if◌then◌else◌}
use ntp_server.Load.Pace.{turn, wait, burst}
use ntp_server.Load.Worker.{
  Receiving, reading, matched, counted, LoadWorker, Event, begin, write_done, write_error, add_sent,
  forget, add_received, keep, read, new_load_worker, step_worker,
}

-- Where `sendLoop` stands: before the `select` of a round, after it, before and after that of a
-- send with a number of sends to come in the batch, in a send, or at its end.
pub data Pacing : Type 0 where
  at_round in_round send_over : Pacing
  at_send in_send in_flight : ℕ → Pacing

-- Where `recvLoop` stands: before the `select`, in a read, with a round trip, or at its end.
pub data Listening : Type 0 where
  at_read in_read in_keep read_over : Listening

pub record Looping : Type 0 where
  pub worker : LoadWorker
  pub index : ℕ
  pub pacing : Pacing
  pub listening : Listening

-- which channels are closed
pub record Channels : Type 0 where
  pub stop : Bool
  pub done : Bool

pub data SendMove : Type 0 where
  sees_stop writes fails_write counts forgets : SendMove
  paces begins : ℕ → SendMove

pub data ReadMove : Type 0 where
  sees_done misses adds keeps : ReadMove
  gets : List ℕ → ℕ → ReadMove

pub data Move : Type 0 where
  sends : SendMove → Move
  reads : ReadMove → Move

-- both loops of worker `i`, before their first round
unfoldable pub new_looping : ℕ → Looping
new_looping i = record {
  worker = new_load_worker i;
  index = 0;
  pacing = at_round;
  listening = at_read;
}

-- the next send of a batch, or the next round
unfoldable pub next_send : ℕ → Pacing
next_send zero = at_round
next_send (suc k) = at_send k

-- an event of the worker, and where its loop stands after it
unfoldable pub with_event : Event → LoadWorker → ℕ → (LoadWorker → Looping) → Option (Looping × ℕ)
with_event e w received place = elim (step_worker e w received) [
  | none ↦ none
  | some (w', total) ↦ some (place w', total)
]

-- A move of `sendLoop`; none if it does not stand before it.
unfoldable pub send_move : ℕ → ℕ → SendMove → Pacing → Channels → Looping → ℕ → Option (Looping × ℕ)
send_move start interval sees_stop at_round ch l received =
    some (record l { pacing = if ch.stop then send_over else in_round }, received)
send_move start interval (paces now) in_round ch l received = some (
  record l {
    pacing = elim (turn start interval l.index now) [
      | wait sleep ↦ at_round
      | burst batch ↦ next_send batch
    ];
  },
  received,
)
send_move start interval sees_stop (at_send k) ch l received =
    some (record l { pacing = if ch.stop then send_over else in_send k }, received)
send_move start interval (begins now) (in_send k) ch l received =
    with_event (begin now) l.worker received
      (λ w. record l { worker = w; index = l.index + 1; pacing = in_flight k })
send_move start interval writes (in_flight k) ch l received =
    with_event write_done l.worker received (λ w. record l { worker = w })
send_move start interval fails_write (in_flight k) ch l received =
    with_event write_error l.worker received (λ w. record l { worker = w })
send_move start interval counts (in_flight k) ch l received =
    with_event add_sent l.worker received (λ w. record l { worker = w; pacing = next_send k })
send_move start interval forgets (in_flight k) ch l received =
    with_event forget l.worker received (λ w. record l { worker = w; pacing = next_send k })
send_move _ _ _ _ ch l received = none

-- after a reply: with a round trip, or before the next read
unfoldable pub after_reply : Receiving → Listening
after_reply reading = at_read
after_reply (matched rtt) = in_keep
after_reply (counted rtt) = in_keep

-- A move of `recvLoop`; none if it does not stand before it.
unfoldable pub read_move : ReadMove → Listening → Channels → Looping → ℕ → Option (Looping × ℕ)
read_move sees_done at_read ch l received =
    some (record l { listening = if ch.done then read_over else in_read }, received)
read_move misses in_read ch l received = some (record l { listening = at_read }, received)
read_move (gets reply now) in_read ch l received =
    with_event (read reply now) l.worker received
      (λ w. record l { worker = w; listening = after_reply w.receiving })
read_move adds in_keep ch l received =
    with_event add_received l.worker received (λ w. record l { worker = w })
read_move keeps in_keep ch l received =
    with_event keep l.worker received (λ w. record l { worker = w; listening = at_read })
read_move _ _ ch l received = none

unfoldable pub move : ℕ → ℕ → Move → Channels → Looping → ℕ → Option (Looping × ℕ)
move start interval (sends m) ch l received = send_move start interval m l.pacing ch l received
move start interval (reads m) ch l received = read_move m l.listening ch l received

-- `Went start interval P a k b`: from `a`, `k` moves lead to `b`, each with channels of which `P`
-- is true. The other workers may change `recvCount` between them.
pub data Went (start interval : ℕ) (P : Channels → Type 0) (a : Looping)
    : ℕ → Looping → Type 0 where
  here : Went start interval P a 0 a
  next :
      {k : ℕ} {b u : Looping} {more : ℕ} (m : Move) (ch : Channels) (received : ℕ)
      → Went start interval P a k b
      → P ch
      → move start interval m ch b received ≡ some (u, more)
      → Went start interval P a (suc k) u
