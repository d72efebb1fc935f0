-- ===== src/Main.antt =====
-- exporter/cmd/exporter/main.go: what `main` reads of its environment, and what it starts with
-- it. An integer has 64 bits. The HTTP server, the signals and the messages are left out.
pub mod Started
use ntp_server.Base.{
  ℕ, zero, ◌+◌, ◌-◌, ◌*◌, ◌^◌, ◌≡◌, Bool, ◌&&◌, Option, none, some, List, [], ◌∷◌, ◌++◌, ltb, leb,
  nat_eqb, ◌==◌, string_eq, GoString, bytes, if◌then◌else◌,
}
use ntp_server.Base.Int.{ℤ, pos, negsuc, sub_ℕ}
use ntp_server.Aggregate.{Collector, new}
use ntp_server.Aggregate.Asn.{format_int}
use ntp_server.Capture.Worker.{clamp_workers}

-- `os.Getenv`, empty for a variable that is not set
abbrev pub Environment : Type 0
Environment = GoString → GoString

-- the digits of a number, after those that make `n`
unfoldable pub read_digits : ℕ → GoString → Option ℕ
read_digits n [] = some n
read_digits n (b ∷ s) =
    let rest = read_digits (n * 10 + (b - b'0')) s in
    if leb b'0' b && leb b b'9' then rest else none

-- one digit at least
unfoldable pub read_unsigned : GoString → Option ℕ
read_unsigned [] = none
read_unsigned (b ∷ s) = read_digits 0 (b ∷ s)

abbrev bounded : ℕ → (ℕ → ℤ) → Option ℕ → Option ℤ
bounded limit signed none = none
bounded limit signed (some n) = if leb n limit then some (signed n) else none

-- `strconv.Atoi`, where none is an error
unfoldable pub atoi : GoString → Option ℤ
atoi [] = none
atoi (b ∷ s) =
    if nat_eqb b b'-'
    then bounded (2 ^ 63) (sub_ℕ 0) (read_unsigned s)
    else if nat_eqb b b'+'
    then bounded (2 ^ 63 - 1) pos (read_unsigned s)
    else bounded (2 ^ 63 - 1) pos (read_unsigned (b ∷ s))

unfoldable pub getenv : Environment → GoString → GoString → GoString
getenv env key otherwise = if env key == [] then otherwise else env key

unfoldable pub getenv_int : Environment → GoString → ℤ → ℤ
getenv_int env key otherwise =
    if env key == [] then otherwise else elim (atoi (env key)) [ none ↦ otherwise | some n ↦ n ]

-- the variables of `main`; the intervals are in seconds
pub record Config : Type 0 where
  pub ntppool_ipv4 : GoString
  pub asn_top_n : ℤ
  pub geoip_dir : GoString
  pub listen_addr : GoString
  pub listen_port : ℤ
  pub clients_poll_interval : ℤ
  pub ntppool_poll_interval : ℤ
  pub capture_workers : ℕ
  pub capture_ring_bytes : ℤ
  pub capture_disabled : Bool

unfoldable pub config : Environment → Config
config env = record {
  ntppool_ipv4 = getenv env (bytes "NTPPOOL_IPV4") [];
  asn_top_n = getenv_int env (bytes "NTP_ASN_TOP_N") (pos 25);
  geoip_dir = getenv env (bytes "GEOIP_DIR") (bytes "/geoip");
  listen_addr = getenv env (bytes "LISTEN_ADDR") (bytes "127.0.0.1");
  listen_port = getenv_int env (bytes "LISTEN_PORT") (pos 9124);
  clients_poll_interval = getenv_int env (bytes "CLIENTS_POLL_INTERVAL") (pos 15);
  ntppool_poll_interval = getenv_int env (bytes "NTPPOOL_POLL_INTERVAL") (pos 300);
  capture_workers = clamp_workers (getenv_int env (bytes "NTP_CAPTURE_WORKERS") (pos 4));
  capture_ring_bytes = getenv_int env (bytes "NTP_CAPTURE_RING_BYTES") (pos 67108864);
  capture_disabled = getenv env (bytes "NTP_CAPTURE_DISABLED") [] == bytes "1";
}

-- `%d`
unfoldable pub print_int : ℤ → GoString
print_int (pos n) = format_int n
print_int (negsuc n) = b'-' ∷ format_int (n + 1)

-- `addr`
unfoldable pub listen_on : Config → GoString
listen_on c = c.listen_addr ++ (b':' ∷ print_int c.listen_port)

-- The collector keeps the first `asnTopN` entries of a ranking, none if it is below 0.
unfoldable pub at_least_zero : ℤ → ℕ
at_least_zero (pos n) = n
at_least_zero (negsuc n) = 0

-- `aggregate.New` with the configuration
unfoldable pub start_collector : Config → Collector
start_collector c = new (at_least_zero c.asn_top_n) c.capture_workers

-- the arguments of `runCapture`, unless capture is disabled
unfoldable pub start_capture : Config → Option (ℕ × ℤ)
start_capture c =
    if c.capture_disabled then none else some (c.capture_workers, c.capture_ring_bytes)
