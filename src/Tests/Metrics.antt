-- ===== src/Tests/Metrics.antt =====
-- The calls on the metrics of a frame from the network and a flush.
use ntp_server.Base.{◌≡◌, map, ℕ, refl, List, [], ◌∷◌, arith, All, Returns, some, replicate}
use ntp_server.Frame.{Parsed, parse_ntp_frame, request, ipv4}
use ntp_server.Frame.Wire.{encode}
use ntp_server.Capture.Filter.{frame_of}
use ntp_server.Aggregate.{new}
use ntp_server.Aggregate.Handle.{Frame}
use ntp_server.Aggregate.Flush.Total.{Call, frame, flushes, requests_in, run_all}
use ntp_server.Aggregate.Flush.Ledger.{Series}
use ntp_server.Metrics.Calls.{call_of}
use ntp_server.Metrics.Fitting.{Fits}
use ntp_server.Metrics.Runs.{FromWire, run_all-Fits}
use ntp_server.Metrics.Totals.{vector, shown, and_flush, run_all-shown}
use ntp_server.Tests.Frames.{plain, tagged_request, tagged_parsed, tagged_request_run}
use ntp_server.Tests.Sorting.{insertion_sort, insertion_sort-Sorts}
use ntp_server.Tests.Collectors.{identity, noon}
use ntp_server.Tests.Flushes.{whole, late}

-- the request, captured by the first worker
abbrev captured : Frame
captured = record {
  worker = 0;
  direction = request;
  ip = 192 ∷ 0 ∷ 2 ∷ 7 ∷ [];
  family = ipv4;
  version = b'4' ∷ [];
  xid = some (1 ∷ 2 ∷ 3 ∷ 4 ∷ 5 ∷ 6 ∷ 7 ∷ 8 ∷ []);
  ts = 100;
}

captured-FromWire : FromWire plain captured
unfolding frame_of ntp_server.Frame.Wire.describe ntp_server.Frame.ntp_version replicate
captured-FromWire = (encode tagged_request, tagged_parsed, tagged_request_run, refl)

abbrev calls : List Call
calls = frame noon captured ∷ flushes late ∷ []

run_all-Fits_example :
    Returns
      (run_all ℕ identity whole insertion_sort insertion_sort-Sorts calls (new 25 2))
      λ u. All (λ e. Fits (call_of e)) u.1
run_all-Fits_example =
    run_all-Fits ℕ plain identity whole insertion_sort insertion_sort-Sorts 25 2 calls
      ((omega arith, captured-FromWire), (tt, tt))

run_all-shown_example :
    Returns
      (run_all ℕ identity whole insertion_sort insertion_sort-Sorts
        (and_flush calls late)
        (new 25 2))
      λ u. (s : Series) → shown (vector s) (map call_of u.1) ≡ requests_in calls
run_all-shown_example =
    run_all-shown ℕ identity whole insertion_sort insertion_sort-Sorts 25 2 calls late
      (omega arith, (tt, tt))
