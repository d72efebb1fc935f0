-- ===== src/Load/Pace.antt =====
-- scripts/ntp-load/main.go: when `sendLoop` sends. Times and durations are nanoseconds; `start`
-- plus the index times the interval stays below 2 ^ 63 for 292 years.
use ntp_server.Base.{
  ℕ, ◌+◌, ◌-◌, ◌*◌, ◌/◌, ◌≤◌, ◌<◌, ◌≡◌, ◌⊎◌, inl, inr, Option, none, some, arith, ltb, leb,
  if◌then◌else◌, Bool-cases,
}
use native.Mathlib.Nat.{div-mul-le_self, lt-div-mul-add, mul-le-mul_right, add-mul}

abbrev pub batch_sleep_floor : ℕ
batch_sleep_floor = 200000

abbrev pub max_batch : ℕ
max_batch = 64

-- `next`, the time of send `n`
unfoldable pub deadline : ℕ → ℕ → ℕ → ℕ
deadline start interval n = start + n * interval

-- `batch`, of a loop that is late by `behind`
unfoldable pub batch_of : ℕ → ℕ → ℕ
batch_of interval behind =
    if ltb interval batch_sleep_floor
    then (let due = behind / interval + 1 in if ltb max_batch due then max_batch else due)
    else 1

-- What a round of the loop does: wait, asleep or not, or send a number of packets.
pub data Turn : Type 0 where
  wait : Option ℕ → Turn
  burst : ℕ → Turn

unfoldable pub turn : ℕ → ℕ → ℕ → ℕ → Turn
turn start interval n now =
    let at = deadline start interval n in
    if ltb now at
    then wait (if leb batch_sleep_floor interval then some (at - now) else none)
    else burst (batch_of interval (now - at))

-- What a turn has to be: no packet is sent before its deadline, at most 64 are sent, and if fewer
-- are sent at an interval below the floor, the next one is not due.
abbrev pub IsPaced : ℕ → ℕ → ℕ → ℕ → Turn → Type 0
IsPaced start interval n now (wait o) = now < deadline start interval n
IsPaced start interval n now (burst b) =
    (1 ≤ b)
    × (b ≤ max_batch)
    × ((j : ℕ) → j < b → deadline start interval (n + j) ≤ now)
    × (interval < batch_sleep_floor → (b ≡ max_batch) ⊎ (now < deadline start interval (n + b)))

deadline_lem :
    (start interval n j : ℕ)
    → deadline start interval (n + j) ≡ deadline start interval n + j * interval
unfolding deadline
deadline_lem start interval n j = omega (arith, add-mul n j interval)

batch_of-bounds :
    (interval behind : ℕ)
    → (1 ≤ batch_of interval behind)
      × (batch_of interval behind ≤ max_batch)
      × (batch_of interval behind ≤ behind / interval + 1)
unfolding batch_of
batch_of-bounds interval behind = ground arith

batch_of-due : (interval behind j : ℕ) → j < batch_of interval behind → j * interval ≤ behind
batch_of-due interval behind j h =
    let few = (batch_of-bounds interval behind).2 in
    let low : j ≤ behind / interval = omega arith in
    omega (arith, div-mul-le_self behind interval, mul-le-mul_right interval low)

batch_of-next :
    (interval behind : ℕ)
    → 1 ≤ interval
    → interval < batch_sleep_floor
    → (batch_of interval behind ≡ max_batch) ⊎ (behind < batch_of interval behind * interval)
unfolding batch_of
batch_of-next interval behind some_time fast =
    elim (Bool-cases (ltb max_batch (behind / interval + 1))) [
      | inl many ↦ inl (ground arith)
      | inr few ↦
          let b : batch_of interval behind ≡ behind / interval + 1 = ground arith in
          inr (
            rw b (
              omega (
                arith,
                add-mul (behind / interval) 1 interval,
                lt-div-mul-add {a = behind} some_time,
              )))
    ]

-- In every round, with an interval of at least a nanosecond, `sendLoop` sends only packets that
-- are due, between 1 and 64 of them, and if the interval is below `batch_sleep_floor`, 200
-- microseconds, it sends 64 or the next packet is not due; else it waits, and then no packet is
-- due.
pub turn-IsPaced :
    (start interval n now : ℕ)
    → 1 ≤ interval
    → IsPaced start interval n now (turn start interval n now)
unfolding turn
turn-IsPaced start interval n now some_time =
    elim (Bool-cases (ltb now (deadline start interval n))) [
      | inl early ↦ rw (turn, early) (ground arith)
      | inr late ↦
          let on_time : deadline start interval n ≤ now = ground arith in
          let behind = now - deadline start interval n in
          let b = batch_of interval behind in
          rw (turn, late)
            (
              (batch_of-bounds interval behind).0,
              (batch_of-bounds interval behind).1,
              λ j h.
                  rw (deadline_lem start interval n j)
                    (omega (arith, batch_of-due interval behind j h)),
              λ fast. elim (batch_of-next interval behind some_time fast) [
                | inl full ↦ inl full
                | inr next ↦ inr (rw (deadline_lem start interval n b) (omega arith))
              ],
            )
    ]
