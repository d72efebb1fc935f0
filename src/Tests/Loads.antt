-- ===== src/Tests/Loads.antt =====
-- Runs of the load generator.
use ntp_server.Base.{
  ℕ, ◌+◌, ◌*◌, ◌^◌, ◌≤◌, ◌<◌, ◌≡◌, refl, ap, Bool, true, false, Option, none, some, List, [], ◌∷◌,
  ◌++◌, ◌/◌, if◌then◌else◌, arith, length, replicate, ltb, leb, ok, GoString, bytes, All, Returns,
  sum_of, list_eqb, set, get_elem?,
}
use native.Mathlib.Nat.{mul-le-mul_right}
use ntp_server.Base.Int.{pos}
use ntp_server.Frame.{parse_ntp_frame, request}
use ntp_server.Frame.Access.{accept}
use ntp_server.Frame.Wire.{Packet, IsPacket, v6, encode, family_of}
use ntp_server.Load.Packet.{
  put_bytes, get_bytes_from, add_one, ntp_packet, cookie_base, cookie_of_reply,
}
use ntp_server.Load.Cookies.{Echoes, cookie_of_reply-Echoes, parse_ntp_frame-ntp_packet}
use ntp_server.Load.Worker.{
  LoadWorker, LoadRun, Runs, here, next, new_load, begin, write_done, add_sent, read, add_received,
  keep, sent_by, step_worker, new_workers, new_load_worker, step, begin_send, match_reply, ready,
  reading,
}
use ntp_server.Load.Conserved.{unanswered, round_trips, Runs-conserves}
use ntp_server.Load.Pace.{IsPaced, turn, burst, turn-IsPaced}
use ntp_server.Load.Report.{FloatLib, stats_of}
use ntp_server.Load.Ordered.{IsReport, stats_of-IsReport}
use ntp_server.Load.Setup.{failed, not_dialed, Config, NetCalls, RateLib, begin_run}
use ntp_server.Load.Began.{HasRun, begin_run-HasRun}
use ntp_server.Tests.Frames.{plain}
use ntp_server.Tests.Sorting.{insertion_sort, insertion_sort-Sorts}

-- a reply that echoes cookie 1
abbrev reply : List ℕ
reply = replicate 24 0 ++ ((0 ∷ 0 ∷ 0 ∷ 0 ∷ 0 ∷ 0 ∷ 0 ∷ 1 ∷ []) ++ replicate 16 0)

reply_lem : Echoes 1 reply
unfolding ntp_packet replicate put_bytes
reply_lem = (omega arith, refl)

cookie_of_reply-Echoes_example : cookie_of_reply reply ≡ some 1
cookie_of_reply-Echoes_example = cookie_of_reply-Echoes 1 reply (omega arith) reply_lem

-- a request of the generator, over IPv6
abbrev pub generated : Packet
generated = record {
  macs = replicate 12 0;
  tag = none;
  header = v6 (replicate 6 0) 64;
  src = replicate 16 1;
  dst = replicate 16 2;
  sport = 40000;
  dport = 123;
  length_and_checksum = replicate 4 0;
  payload = ntp_packet 258;
}

pub generated_lem : IsPacket generated
unfolding replicate
generated_lem = record { macs = refl; header = (refl, refl, refl); length_and_checksum = refl }

parse_ntp_frame-ntp_packet_example :
    parse_ntp_frame plain (encode generated)
    ≡ accept (record {
      direction = request;
      ip = plain.parse_ip (plain.to_string generated.src);
      src_ip = generated.src;
      dst_ip = generated.dst;
      family = family_of generated.header;
      version = bytes "4";
      has_version = true;
      xid = some (put_bytes 8 258);
    })
parse_ntp_frame-ntp_packet_example =
    parse_ntp_frame-ntp_packet plain generated 258 generated_lem refl refl

-- A worker that has sent two requests, of which one is answered.
abbrev answered : LoadWorker
answered = record {
  base = 0;
  counter = 2;
  pending = (2, 700) ∷ [];
  rtts = 6000 ∷ [];
  sent = 2;
  sending = ready;
  receiving = reading;
}

abbrev after : LoadRun
after = record { workers = answered ∷ []; received = 1 }

answered_run : Runs (new_load 1) 9 after
unfolding new_load new_workers new_load_worker step_worker step begin_send match_reply
    cookie_of_reply get_bytes_from replicate add_one cookie_base ntp_server.Base.GoMap.insert
    ntp_server.Base.GoMap.lookup ntp_server.Base.GoMap.delete
answered_run =
    (next 0 _ add_sent
      (next 0 _ write_done
        (next 0 _ (begin 700)
          (next 0 _ keep
            (next 0 _ add_received
              (next 0 _ (read reply 6100)
                (next 0 _ add_sent
                  (next 0 _ write_done (next 0 _ (begin 100) here refl tt refl) refl tt refl) refl
                  tt refl)
                refl tt refl)
              refl tt refl)
            refl tt refl)
          refl tt refl)
        refl tt refl)
      refl tt refl)

Runs-conserves_example :
    (sum_of sent_by after.workers ≡ after.received + sum_of unanswered after.workers)
    × (sum_of round_trips after.workers ≡ after.received)
Runs-conserves_example = Runs-conserves 1 (omega arith) answered_run ((refl, refl), tt)

-- percentages in whole hundredths
abbrev whole_numbers : FloatLib ℕ
whole_numbers = record {
  zero_float = 0;
  ceil_part = λ p n. (p * n + 99) / 100;
  percent = λ a b. 100 * a / b;
  per_second = λ n d. n * 1000000000 / d;
}

whole_numbers_lem : (p q n : ℕ) → p ≤ q → whole_numbers.ceil_part p n ≤ whole_numbers.ceil_part q n
whole_numbers_lem p q n h = omega (arith, mul-le-mul_right n h)

stats_of-IsReport_example :
    Returns
      (stats_of whole_numbers insertion_sort 1000000000 after.workers after.received)
      (IsReport whole_numbers (sum_of unanswered after.workers))
stats_of-IsReport_example =
    stats_of-IsReport whole_numbers insertion_sort insertion_sort-Sorts whole_numbers_lem 1
      1000000000 (omega arith) answered_run ((refl, refl), tt) (omega arith)

turn-IsPaced_example : IsPaced 1000 50000 7 900000 (turn 1000 50000 7 900000)
turn-IsPaced_example = turn-IsPaced 1000 50000 7 900000 (omega arith)

-- the loop is 549 microseconds late, and eleven requests are due
turn_run : turn 1000 50000 7 900000 ≡ burst 11
unfolding turn ntp_server.Load.Pace.deadline ntp_server.Load.Pace.batch_of
turn_run = refl

-- the third call of `DialUDP` fails
abbrev lan : NetCalls ℕ
lan = record {
  splits = λ s. true;
  resolves = λ s. true;
  dial = λ i. if ltb i 2 then some i else none;
  has_room = λ n. ltb n (2 ^ 40);
  makes = λ n. ltb n (2 ^ 40);
}

abbrev whole_rates : RateLib ℕ
whole_rates = record {
  one_float = 1;
  at_most_0 = λ x. leb x 0;
  estimate = λ x d. x * d;
  share = λ x n. x / n;
  nanos_per = λ x. pos (1000000000 / x);
  over_1 = λ x. ltb 1 x;
}

abbrev config : Config ℕ
config = record {
  server = bytes "192.0.2.10:123";
  rate = 1000;
  duration = 30;
  workers = pos 8;
  timeout = 2;
}

begin_run-HasRun_example : HasRun whole_rates lan config (begin_run whole_rates lan config)
begin_run-HasRun_example = begin_run-HasRun whole_rates lan config

begun_run : begin_run whole_rates lan config ≡ ok (failed (not_dialed 2) (0 ∷ 1 ∷ []))
unfolding begin_run ntp_server.Load.Setup.resolve_server ntp_server.Load.Setup.dial_workers
    ntp_server.Load.Setup.worker_count ntp_server.Load.Setup.capacity_of
    ntp_server.Load.Setup.begin_dialed
begun_run = refl
