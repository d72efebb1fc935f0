-- ===== src/Tests/Stops.antt =====
-- The end of the loops of a worker of the load generator.
use ntp_server.Base.{ℕ, ◌≤◌, ◌≡◌, refl, ◌⊎◌, List, [], ◌∷◌, ◌++◌, Bool, true, false, replicate}
use ntp_server.Load.Worker.{
  ready, reading, writing, step, step_worker, begin_send, match_reply, new_load_worker,
}
use ntp_server.Load.Packet.{add_one, cookie_base, cookie_of_reply, get_bytes_from}
use ntp_server.Load.Pace.{turn, deadline, batch_of}
use ntp_server.Load.Channels.{
  Looping, Channels, in_flight, in_read, send_over, read_over, sends, reads, sees_stop, paces,
  begins, writes, counts, sees_done, gets, adds, keeps, new_looping, next_send, with_event,
  send_move, after_reply, read_move, move, Went, here, next,
}
use ntp_server.Load.Halting.{IsClosed}
use ntp_server.Load.Stopping.{IsOver, CanMove, Went-IsOver}

abbrev running : Channels
running = record { stop = false; done = false }

abbrev finishing : Channels
finishing = record { stop = true; done = true }

abbrev IsOpen : Channels → Type 0
IsOpen ch = (ch.stop ≡ false) × (ch.done ≡ false)

-- in the first send of a batch of two, and in a read
abbrev busy : Looping
busy = record {
  worker = record {
    base = 0;
    counter = 1;
    pending = (1, 1600) ∷ [];
    rtts = [];
    sent = 0;
    sending = writing 1;
    receiving = reading;
  };
  index = 1;
  pacing = in_flight 1;
  listening = in_read;
}

abbrev ended : Looping
ended = record {
  worker = record {
    base = 0;
    counter = 1;
    pending = [];
    rtts = 1000 ∷ [];
    sent = 1;
    sending = ready;
    receiving = reading;
  };
  index = 1;
  pacing = send_over;
  listening = read_over;
}

-- a reply to the first request
abbrev reply : List ℕ
reply = replicate 31 0 ++ (1 ∷ replicate 16 0)

busy_run : Went 0 1000 IsOpen (new_looping 0) 5 busy
unfolding move send_move read_move new_looping new_load_worker cookie_base turn deadline batch_of
    next_send with_event step_worker step begin_send add_one ntp_server.Base.GoMap.insert
busy_run =
    next (reads sees_done) running 0
      (next (sends (begins 1600)) running 0
        (next (sends sees_stop) running 0
          (next (sends (paces 1500)) running 0
            (next (sends sees_stop) running 0 here (refl, refl) refl) (refl, refl) refl)
          (refl, refl) refl)
        (refl, refl) refl)
      (refl, refl) refl

ended_run : Went 0 1000 IsClosed busy 7 ended
unfolding replicate move send_move read_move next_send with_event after_reply step_worker step
    add_one match_reply cookie_of_reply get_bytes_from ntp_server.Base.GoMap.lookup
    ntp_server.Base.GoMap.delete
ended_run =
    next (reads sees_done) finishing 1
      (next (sends sees_stop) finishing 1
        (next (reads keeps) finishing 1
          (next (reads adds) finishing 0
            (next (sends counts) finishing 0
              (next (reads (gets reply 2600)) finishing 0
                (next (sends writes) finishing 0 here (refl, refl) refl) (refl, refl) refl)
              (refl, refl) refl)
            (refl, refl) refl)
          (refl, refl) refl)
        (refl, refl) refl)
      (refl, refl) refl

Went-IsOver_example : (7 ≤ 8) × (IsOver ended ⊎ CanMove 0 1000 finishing ended 1)
Went-IsOver_example = Went-IsOver 0 1000 0 finishing 1 busy_run ended_run
