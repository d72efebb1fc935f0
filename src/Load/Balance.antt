-- ===== src/Load/Balance.antt =====
-- What each event of the workers of scripts/ntp-load/main.go keeps: no reply is counted twice, and
-- what is sent is answered or pending.
use ntp_server.Base.{
  ℕ, suc, ◌+◌, ◌*◌, ◌%◌, ◌^◌, ◌≤◌, ◌<◌, ◌≡◌, refl, inl, inr, Option, none, some, List, nat_eq,
  length, arith, nat_eqb_iff, Option-cases,
}
use ntp_server.Base.Bits.{bit_or_sum}
use ntp_server.Base.GoMap.{
  GoMap, UniqueKeys, insert, lookup, delete, lookup-insert, lookup-delete, insert-UniqueKeys,
  delete-UniqueKeys, length-insert_new, length-delete,
}
use Prim.Native.Nat.{bit_or}
use ntp_server.Load.Packet.{add_one}
use ntp_server.Load.Worker.{
  Sending, ready, wrote, writing, unwritten, Receiving, reading, counted, LoadWorker, begin_send,
  forget_send, match_reply, Unanswered,
}

abbrev pub going : Sending → ℕ
going ready = 0
going _ = 1

abbrev pub taken : Receiving → ℕ
taken reading = 0
taken _ = 1

abbrev pub unkept : Receiving → ℕ
unkept (counted rtt) = 1
unkept _ = 0

-- the replies that a worker has counted
abbrev pub settled : LoadWorker → ℕ
settled w = length w.rtts + unkept w.receiving

-- The cookie of a send that has not succeeded is pending.
abbrev pub Current : Sending → GoMap ℕ ℕ → Type 0
Current (writing cookie) pending = (t : ℕ) × (lookup cookie pending ≡ some t)
Current (unwritten cookie) pending = (t : ℕ) × (lookup cookie pending ≡ some t)
Current _ pending = Unit

-- The state of a worker after at most `k` events of it.
pub record IsLoadWorker (k : ℕ) (w : LoadWorker) : Type 0 where
  pub base : (q : ℕ) × (w.base ≡ q * 2 ^ 48)
  pub counter : w.counter ≤ k
  pub sent : w.sent ≤ k
  pub unique : UniqueKeys w.pending
  pub known : (c t : ℕ) → lookup c w.pending ≡ some t → (w.base < c) × (c ≤ w.base + w.counter)
  pub current : Current w.sending w.pending
  pub balance : w.sent + going w.sending ≡ length w.rtts + taken w.receiving + length w.pending

-- what an event has to keep, with the count of all replies
abbrev pub Keeps : ℕ → LoadWorker → ℕ → LoadWorker × ℕ → Type 0
Keeps k w received (u, total) =
    IsLoadWorker (suc k) u × (total + settled w ≡ received + settled u) × (total ≤ suc k)

-- the worker after `begin_send`, without the wrap-around
abbrev pub begun : ℕ → LoadWorker → LoadWorker
begun now w =
    let cookie = w.base + (w.counter + 1) in
    record w {
      counter = w.counter + 1;
      pending = insert cookie now w.pending;
      sending = writing cookie;
    }

pub begin_send-begun :
    (k now : ℕ) (w : LoadWorker)
    → suc k < 2 ^ 48
    → IsLoadWorker k w
    → begin_send now w ≡ begun now w
unfolding begin_send add_one
begin_send-begun k now w small v =
    let next : (w.counter + 1) % 2 ^ 64 ≡ w.counter + 1 = omega (arith, v.counter) in
    let cookie : bit_or w.base (w.counter + 1) ≡ w.base + (w.counter + 1) =
      rw v.base.1 (bit_or_sum 48 v.base.0 (w.counter + 1) (omega (arith, v.counter))) in
    rw (begin_send, next, cookie) refl

pub begun-IsLoadWorker :
    (k now : ℕ) (w : LoadWorker)
    → w.sending ≡ ready
    → IsLoadWorker k w
    → IsLoadWorker (suc k) (begun now w)
begun-IsLoadWorker k now w at_rest v =
    let cookie = w.base + (w.counter + 1) in
    let fresh : lookup cookie w.pending ≡ none = elim (Option-cases (lookup cookie w.pending)) [
      | inl absent ↦ absent
      | inr (t, found) ↦ absurd (omega (arith, (v.known cookie t found).1))
    ] in
    record {
      base = v.base;
      counter = omega (arith, v.counter);
      sent = omega (arith, v.sent);
      unique = insert-UniqueKeys cookie now w.pending v.unique;
      known = λ c t found.
          ground (arith, v.known c t, lookup-insert cookie c now w.pending, nat_eqb_iff cookie c);
      current = (
        now,
        ground (arith, lookup-insert cookie cookie now w.pending, nat_eqb_iff cookie cookie),
      );
      balance = ground (arith, v.balance, length-insert_new cookie now w.pending fresh);
    }

known-delete :
    (cookie : ℕ) (w : LoadWorker)
    → ((c t : ℕ) → lookup c w.pending ≡ some t → (w.base < c) × (c ≤ w.base + w.counter))
    → (c t : ℕ) → lookup c (delete cookie w.pending) ≡ some t
    → (w.base < c) × (c ≤ w.base + w.counter)
known-delete cookie w known c t found = ground (arith, known c t, lookup-delete cookie c w.pending)

pub forget_send-IsLoadWorker :
    (k cookie : ℕ) (w : LoadWorker)
    → w.sending ≡ unwritten cookie
    → IsLoadWorker k w
    → IsLoadWorker (suc k) (forget_send cookie w)
unfolding forget_send
forget_send-IsLoadWorker k cookie w at v =
    let (t, found) = rw at at v.current in
    record {
      base = v.base;
      counter = omega (arith, v.counter);
      sent = omega (arith, v.sent);
      unique = delete-UniqueKeys cookie w.pending v.unique;
      known = known-delete cookie w v.known;
      current = tt;
      balance = ground (arith, v.balance, length-delete cookie w.pending v.unique found);
    }

-- a reply with another cookie leaves that of the send in the table
Current-delete :
    (sending : Sending) (cookie : ℕ) (pending : GoMap ℕ ℕ)
    → Unanswered sending (some cookie)
    → Current sending pending
    → Current sending (delete cookie pending)
Current-delete ready cookie pending other h = tt
Current-delete wrote cookie pending other h = tt
Current-delete (writing c) cookie pending other (t, h) =
    (t, ground (arith, lookup-delete cookie c pending, nat_eqb_iff cookie c))
Current-delete (unwritten c) cookie pending other (t, h) =
    (t, ground (arith, lookup-delete cookie c pending, nat_eqb_iff cookie c))

-- a worker whose table does not change
pub same_table-IsLoadWorker :
    (k : ℕ) (w : LoadWorker) (rtts : List ℕ) (sent : ℕ) (sending : Sending) (receiving : Receiving)
    → IsLoadWorker k w
    → sent ≤ suc k
    → Current sending w.pending
    → sent + going sending ≡ length rtts + taken receiving + length w.pending
    → IsLoadWorker
        (suc k)
        (record w { rtts = rtts; sent = sent; sending = sending; receiving = receiving })
same_table-IsLoadWorker k w rtts sent sending receiving v few current balance = record {
  base = v.base;
  counter = omega (arith, v.counter);
  sent = few;
  unique = v.unique;
  known = v.known;
  current = current;
  balance = balance;
}

pub later-IsLoadWorker : (k : ℕ) (w : LoadWorker) → IsLoadWorker k w → IsLoadWorker (suc k) w
later-IsLoadWorker k w v =
    same_table-IsLoadWorker k w w.rtts w.sent w.sending w.receiving v (omega (arith, v.sent))
      v.current v.balance

pub match_reply-IsLoadWorker :
    (k now : ℕ) (reply : Option ℕ) (w : LoadWorker)
    → w.receiving ≡ reading
    → Unanswered w.sending reply
    → IsLoadWorker k w
    → IsLoadWorker (suc k) (match_reply reply now w)
      × (settled (match_reply reply now w) ≡ settled w)
unfolding match_reply
match_reply-IsLoadWorker k now none w at_rest other v = (later-IsLoadWorker k w v, refl)
match_reply-IsLoadWorker k now (some cookie) w at_rest other v =
    elim (Option-cases (lookup cookie w.pending)) [
      | inl absent ↦ rw (match_reply, absent) (later-IsLoadWorker k w v, refl)
      | inr (t, found) ↦
          rw (match_reply, found)
            (
              record {
                base = v.base;
                counter = omega (arith, v.counter);
                sent = omega (arith, v.sent);
                unique = delete-UniqueKeys cookie w.pending v.unique;
                known = known-delete cookie w v.known;
                current = Current-delete w.sending cookie w.pending other v.current;
                balance = ground (arith, v.balance, length-delete cookie w.pending v.unique found);
              },
              ground arith,
            )
    ]

-- `Keeps` of an event that happens
abbrev pub KeepsIf : ℕ → LoadWorker → ℕ → Option (LoadWorker × ℕ) → Type 0
KeepsIf k w received none = Unit
KeepsIf k w received (some r) = Keeps k w received r
