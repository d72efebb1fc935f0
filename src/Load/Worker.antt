-- ===== src/Load/Worker.antt =====
-- scripts/ntp-load/main.go: `sendLoop` and `recvLoop` of the workers, which run at the same time.
-- An event is one critical section, one atomic addition, or one system call of a loop. Times are
-- nanoseconds; the counters of type `uint64` wrap around. The channels `stop` and `done` are
-- those of Load/Channels, so here the loops may begin a send or a read at any time.
use ntp_server.Base.{
  ℕ, zero, suc, ◌-◌, ◌≡◌, ◌≢◌, Option, none, some, List, [], ◌∷◌, ◌++◌, get_elem?, set, nat_eq,
}
use ntp_server.Base.GoMap.{GoMap, insert, lookup, delete}
use Prim.Native.Nat.{bit_or}
use ntp_server.Load.Packet.{cookie_base, add_one, cookie_of_reply}

-- Where `sendLoop` stands: before a send, before the call of `Write` with a cookie, after a
-- successful one, or after a failed one.
pub data Sending : Type 0 where
  ready wrote : Sending
  writing unwritten : ℕ → Sending

-- Where `recvLoop` stands: before a read; or with a round trip, not yet counted or not yet kept.
pub data Receiving : Type 0 where
  reading : Receiving
  matched counted : ℕ → Receiving

-- `worker`, with `cookieBase` and the counter that `run` gives its loops
pub record LoadWorker : Type 0 where
  pub base : ℕ
  pub counter : ℕ
  pub pending : GoMap ℕ ℕ
  pub rtts : List ℕ
  pub sent : ℕ
  pub sending : Sending
  pub receiving : Receiving

abbrev pub sent_by : LoadWorker → ℕ
sent_by w = w.sent

-- Times are those of the `time.Now` before a send, and of the `time.Since` after a reply; a reply
-- is what `Read` puts into the buffer.
pub data Event : Type 0 where
  begin : ℕ → Event
  write_done write_error add_sent forget add_received keep : Event
  read : List ℕ → ℕ → Event

-- `newWorker`, for worker `i`
unfoldable pub new_load_worker : ℕ → LoadWorker
new_load_worker i = record {
  base = cookie_base i;
  counter = 0;
  pending = [];
  rtts = [];
  sent = 0;
  sending = ready;
  receiving = reading;
}

-- the next cookie is pending from now on
unfoldable pub begin_send : ℕ → LoadWorker → LoadWorker
begin_send now w =
    let counter = add_one w.counter in
    let cookie = bit_or w.base counter in
    record w { counter = counter; pending = insert cookie now w.pending; sending = writing cookie }

-- a failed send is not pending
unfoldable pub forget_send : ℕ → LoadWorker → LoadWorker
forget_send cookie w = record w { pending = delete cookie w.pending; sending = ready }

-- a reply to a pending request is taken from the table
unfoldable pub match_reply : Option ℕ → ℕ → LoadWorker → LoadWorker
match_reply none now w = w
match_reply (some cookie) now w = elim (lookup cookie w.pending) [
  | none ↦ w
  | some sent_at ↦ record w {
    pending = delete cookie w.pending;
    receiving = matched (now - sent_at);
  }
]

-- An event of a worker, with `recvCount`; none if the loops do not stand before it.
unfoldable pub step : Event → Sending → Receiving → LoadWorker → ℕ → Option (LoadWorker × ℕ)
step (begin now) ready receiving w received = some (begin_send now w, received)
step write_done (writing cookie) receiving w received =
    some (record w { sending = wrote }, received)
step write_error (writing cookie) receiving w received =
    some (record w { sending = unwritten cookie }, received)
step add_sent wrote receiving w received =
    some (record w { sent = add_one w.sent; sending = ready }, received)
step forget (unwritten cookie) receiving w received = some (forget_send cookie w, received)
step (read reply now) sending reading w received =
    some (match_reply (cookie_of_reply reply) now w, received)
step add_received sending (matched rtt) w received =
    some (record w { receiving = counted rtt }, add_one received)
step keep sending (counted rtt) w received =
    some (record w { rtts = w.rtts ++ (rtt ∷ []); receiving = reading }, received)
step _ _ _ _ _ = none

unfoldable pub step_worker : Event → LoadWorker → ℕ → Option (LoadWorker × ℕ)
step_worker e w received = step e w.sending w.receiving w received

-- the workers of `run`, and `recvCount`
pub record LoadRun : Type 0 where
  pub workers : List LoadWorker
  pub received : ℕ

unfoldable pub new_workers : ℕ → List LoadWorker
new_workers zero = []
new_workers (suc n) = new_workers n ++ (new_load_worker n ∷ [])

unfoldable pub new_load : ℕ → LoadRun
new_load count = record { workers = new_workers count; received = 0 }

-- No reply has the cookie of a request that is not written.
abbrev pub Unanswered : Sending → Option ℕ → Type 0
Unanswered (writing cookie) (some c) = cookie ≢ c
Unanswered (unwritten cookie) (some c) = cookie ≢ c
Unanswered _ _ = Unit

abbrev pub Delivers : Event → LoadWorker → Type 0
Delivers (read reply now) w = Unanswered w.sending (cookie_of_reply reply)
Delivers _ w = Unit

-- `Runs a k b`: from `a`, `k` events of any workers, in any order that their loops allow, lead to
-- `b`.
pub data Runs (a : LoadRun) : ℕ → LoadRun → Type 0 where
  here : Runs a 0 a
  next :
      {k : ℕ} {b : LoadRun} {u : LoadWorker} {received : ℕ} (i : ℕ) (w : LoadWorker) (e : Event)
      → Runs a k b
      → get_elem? b.workers i ≡ some w
      → Delivers e w
      → step_worker e w b.received ≡ some (u, received)
      → Runs a (suc k) (record { workers = set b.workers i u; received = received })
