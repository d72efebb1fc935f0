-- ===== src/Load/Accounts.antt =====
-- Every run of the workers of scripts/ntp-load/main.go: what is sent is answered or pending.
use ntp_server.Base.{
  ℕ, suc, ◌+◌, ◌%◌, ◌^◌, ◌≤◌, ◌<◌, ◌≡◌, refl, [], ◌∷◌, ◌++◌, nat_eq, arith, length-append,
}
use ntp_server.Load.Packet.{add_one, cookie_of_reply}
use ntp_server.Load.Worker.{
  Sending, ready, wrote, writing, unwritten, Receiving, reading, matched, counted, LoadWorker,
  Event, begin, write_done, write_error, add_sent, forget, add_received, keep, read, forget_send,
  step, Delivers,
}
use ntp_server.Load.Balance.{
  IsLoadWorker, KeepsIf, begin_send-begun, begun-IsLoadWorker, forget_send-IsLoadWorker,
  same_table-IsLoadWorker, match_reply-IsLoadWorker,
}

pub step-Keeps :
    (k received : ℕ) (e : Event) (sending : Sending) (receiving : Receiving) (w : LoadWorker)
    → suc k < 2 ^ 48
    → received ≤ k
    → w.sending ≡ sending
    → w.receiving ≡ receiving
    → Delivers e w
    → IsLoadWorker k w
    → KeepsIf k w received (step e sending receiving w received)
unfolding step add_one forget_send
step-Keeps k received (begin now) ready receiving w small low s t d v =
    rw (begin_send-begun k now w small v)
      (begun-IsLoadWorker k now w s v, ground arith, omega arith)
step-Keeps k received write_done (writing cookie) receiving w small low s t d v = (
  same_table-IsLoadWorker k w w.rtts w.sent wrote w.receiving v (omega (arith, v.sent)) tt
      (ground (arith, v.balance)),
  refl,
  omega arith,
)
step-Keeps k received write_error (writing cookie) receiving w small low s t d v = (
  same_table-IsLoadWorker k w w.rtts w.sent (unwritten cookie) w.receiving v (omega (arith, v.sent))
      (rw s at v.current) (ground (arith, v.balance)),
  refl,
  omega arith,
)
step-Keeps k received add_sent wrote receiving w small low s t d v =
    let next_sent : (w.sent + 1) % 2 ^ 64 ≡ w.sent + 1 = omega (arith, v.sent) in
    rw next_sent (
      same_table-IsLoadWorker k w w.rtts (w.sent + 1) ready w.receiving v (omega (arith, v.sent)) tt
          (ground (arith, v.balance)),
      refl,
      omega arith,
    )
step-Keeps k received forget (unwritten cookie) receiving w small low s t d v =
    (forget_send-IsLoadWorker k cookie w s v, refl, omega arith)
step-Keeps k received (read reply now) sending reading w small low s t d v =
    let (kept, same) = match_reply-IsLoadWorker k now (cookie_of_reply reply) w t d v in
    (kept, omega (arith, same), omega arith)
step-Keeps k received add_received sending (matched rtt) w small low s t d v =
    let next_received : (received + 1) % 2 ^ 64 ≡ received + 1 = omega arith in
    rw next_received (
      same_table-IsLoadWorker k w w.rtts w.sent w.sending (counted rtt) v (omega (arith, v.sent))
          v.current (ground (arith, v.balance)),
      ground arith,
      omega arith,
    )
step-Keeps k received keep sending (counted rtt) w small low s t d v =
    let longer = length-append w.rtts (rtt ∷ []) in
    (
      same_table-IsLoadWorker k w (w.rtts ++ (rtt ∷ [])) w.sent w.sending reading v
          (omega (arith, v.sent)) v.current (ground (arith, v.balance)),
      ground arith,
      omega arith,
    )
step-Keeps k received (begin now) wrote receiving w small low s t d v = tt
step-Keeps k received (begin now) (writing c) receiving w small low s t d v = tt
step-Keeps k received (begin now) (unwritten c) receiving w small low s t d v = tt
step-Keeps k received write_done ready receiving w small low s t d v = tt
step-Keeps k received write_done wrote receiving w small low s t d v = tt
step-Keeps k received write_done (unwritten c) receiving w small low s t d v = tt
step-Keeps k received write_error ready receiving w small low s t d v = tt
step-Keeps k received write_error wrote receiving w small low s t d v = tt
step-Keeps k received write_error (unwritten c) receiving w small low s t d v = tt
step-Keeps k received add_sent ready receiving w small low s t d v = tt
step-Keeps k received add_sent (writing c) receiving w small low s t d v = tt
step-Keeps k received add_sent (unwritten c) receiving w small low s t d v = tt
step-Keeps k received forget ready receiving w small low s t d v = tt
step-Keeps k received forget wrote receiving w small low s t d v = tt
step-Keeps k received forget (writing c) receiving w small low s t d v = tt
step-Keeps k received (read reply now) sending (matched rtt) w small low s t d v = tt
step-Keeps k received (read reply now) sending (counted rtt) w small low s t d v = tt
step-Keeps k received add_received sending reading w small low s t d v = tt
step-Keeps k received add_received sending (counted rtt) w small low s t d v = tt
step-Keeps k received keep sending reading w small low s t d v = tt
step-Keeps k received keep sending (matched rtt) w small low s t d v = tt
