-- ===== src/Tests/Captures.antt =====
-- Captured frames and failing sockets.
use ntp_server.Base.{
  ℕ, ◌+◌, ◌*◌, ◌/◌, ◌%◌, ◌≤◌, ◌≡◌, refl, list_eqb, Bool, true, ◌&&◌, some, List, [], ◌∷◌, arith,
  replicate, All, ◌==◌, nat_eq, if◌then◌else◌, Returns,
}
use ntp_server.Frame.{ntp_port}
use ntp_server.Frame.Wire.{encode}
use ntp_server.Aggregate.Keeps.{IsValidOf}
use ntp_server.Aggregate.Flush.Ledger.{Series, waiting}
use ntp_server.Capture.LocalAddresses.{LocalIps, Lookup, ip_net, other_addr, contains}
use ntp_server.Capture.Filter.{Surroundings, process_frame}
use ntp_server.Capture.Frames.{Adds, process_frame-IsValid, process_frame-encode}
use ntp_server.Capture.Worker.{Read, failed, timed_out, packet, start, rounds}
use ntp_server.Capture.Backoff.{
  failures, reopenings, IsWorker, IsPatient, rounds-IsWorker, rounds-reopenings, start-IsWorker,
}
use ntp_server.Tests.Frames.{plain, tagged_request, tagged_request_lem}
use ntp_server.Tests.Collectors.{identity, noon, two_workers, two_workers_lem}

-- a cache that is old, and an interface with the address to which the request goes
abbrev pub stale : LocalIps
stale = record { set = []; last_load = 0; interval = 30 }

abbrev pub here : Surroundings
here = record {
  look = record {
    now = 31;
    addrs = some (other_addr ∷ ip_net (198 ∷ 51 ∷ 100 ∷ 1 ∷ []) ∷ []);
    now_loaded = 32;
  };
  reading = noon;
}

process_frame-IsValid_example :
    Returns (process_frame {F = ℕ} plain identity here 0 100 (1 ∷ 2 ∷ []) stale two_workers) λ u.
      IsValidOf 2 u.0
      × ((b : Bool) × Adds ℕ plain identity here 0 100 stale two_workers_lem (omega arith) b u.0)
process_frame-IsValid_example =
    process_frame-IsValid ℕ plain identity here 0 100 stale two_workers_lem (omega arith)
      (1 ∷ 2 ∷ [])

process_frame-encode_example :
    Returns
      (process_frame {F = ℕ} plain identity here 0 100 (encode tagged_request) stale two_workers)
      λ u.
        IsValidOf 2 u.0
        × ((q : Series)
            → waiting q u.0.workers
              ≡ waiting q two_workers.workers
                + (if (tagged_request.dport == ntp_port)
                      && (contains plain here.look stale tagged_request.dst).1
                    then 1
                    else 0))
process_frame-encode_example =
    process_frame-encode ℕ plain identity here 0 100 stale two_workers_lem (omega arith)
      tagged_request tagged_request_lem

-- the request goes to an address of this host
here_run : (contains plain here.look stale tagged_request.dst).1 ≡ true
unfolding contains ntp_server.Capture.LocalAddresses.maybe_reload
    ntp_server.Capture.LocalAddresses.reload ntp_server.Capture.LocalAddresses.ips_of
    ntp_server.Capture.LocalAddresses.put_ip ntp_server.Capture.LocalAddresses.member list_eqb
here_run = refl

abbrev outage : List Read
outage = failed 5 true ∷ timed_out ∷ failed 9 true ∷ []

rounds-IsWorker_example :
    IsWorker (rounds (packet ∷ outage) start).0
    × All IsPatient (rounds (packet ∷ outage) start).1
    × (32 * reopenings (rounds (packet ∷ outage) start).1
          + (rounds (packet ∷ outage) start).0.consecutive_errs
        ≤ start.consecutive_errs + failures (packet ∷ outage))
rounds-IsWorker_example = rounds-IsWorker (packet ∷ outage) start start-IsWorker

rounds-reopenings_example :
    (reopenings (rounds outage start).1 ≡ (start.consecutive_errs + failures outage) / 32)
    × ((rounds outage start).0.consecutive_errs ≡ (start.consecutive_errs + failures outage) % 32)
rounds-reopenings_example = rounds-reopenings outage start start-IsWorker (tt, (tt, (tt, tt)))

-- 33 failed reads reopen the socket once
reopened_run : reopenings (rounds (replicate 33 (failed 5 true)) start).1 ≡ 1
unfolding reopenings rounds start replicate ntp_server.Capture.Worker.round
    ntp_server.Capture.Worker.log_due ntp_server.Capture.Worker.next_backoff
reopened_run = refl
