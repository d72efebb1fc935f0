-- ===== src/Tests/Started.antt =====
-- `main` in an environment with two workers.
use ntp_server.Base.{
  ℕ, ◌≡◌, refl, some, List, [], ◌∷◌, arith, bytes, if◌then◌else◌, ◌==◌, string_eq, Returns,
  list_eqb,
}
use ntp_server.Base.Int.{pos}
use ntp_server.Aggregate.Keeps.{IsValidOf}
use ntp_server.Capture.Sockets.{joined}
use ntp_server.Frame.Wire.{encode}
use ntp_server.Main.{
  Environment, config, start_collector, start_capture, atoi, print_int, getenv, getenv_int,
}
use ntp_server.Main.Started.{Arrival, process_all, started-IsValid}
use ntp_server.Tests.Frames.{plain, tagged_request}
use ntp_server.Tests.Collectors.{identity}
use ntp_server.Tests.Captures.{stale, here}
use ntp_server.Tests.Sessions.{busy, busy_lem}
use ntp_server.Tests.Loopers.{two-opened}

abbrev with_two : Environment
with_two key =
    if key == bytes "NTP_CAPTURE_WORKERS"
    then bytes "2"
    else if key == bytes "NTP_ASN_TOP_N"
    then bytes "many"
    else []

-- a number that cannot be read is the default
default_run : (config with_two).asn_top_n ≡ pos 25
unfolding config getenv_int atoi list_eqb ntp_server.Main.read_unsigned ntp_server.Main.read_digits
default_run = refl

two_started : start_capture (config with_two) ≡ some (2, pos 67108864)
unfolding config start_capture getenv getenv_int atoi list_eqb ntp_server.Main.read_unsigned
    ntp_server.Main.read_digits ntp_server.Capture.Worker.clamp_workers
two_started = refl

-- a request at each of the two sockets, and then a frame of two bytes
abbrev arrivals : List Arrival
arrivals =
    record { surroundings = here; worker = 0; ts = 100; data_read = encode tagged_request }
    ∷ record { surroundings = here; worker = 1; ts = 101; data_read = encode tagged_request }
    ∷ record { surroundings = here; worker = 1; ts = 102; data_read = 1 ∷ 2 ∷ [] }
    ∷ []

started-IsValid_example :
    Returns
      (process_all ℕ plain identity arrivals stale (start_collector (config with_two)))
      λ u. IsValidOf 2 u.0
started-IsValid_example =
    started-IsValid ℕ plain identity with_two (λ i. joined) busy arrivals stale busy_lem two_started
      two-opened (omega arith, (omega arith, (omega arith, tt)))
