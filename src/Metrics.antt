-- ===== src/Metrics.antt =====
-- exporter/internal/metrics/metrics.go: the metrics that the exporter declares, those that its
-- registry has, and those that are there before the first call. Help texts are left out. What a
-- call on a metric needs is in the modules below.
pub mod Calls
pub mod Keys
pub mod Fitting
pub mod Events
pub mod Runs
pub mod Totals
use ntp_server.Base.{
  ℕ, Option, none, some, List, [], ◌∷◌, ◌==◌, string_eq, GoString, bytes, if◌then◌else◌,
}

-- the variables of the package, by the names of their metrics
pub data Metric : Type 0 where
  ntp_client_requests_total ntp_client_drops_total ntp_client_requests_by_asn_total : Metric
  ntp_clients_active ntp_clients_unique_daily ntp_clients_scrape_success : Metric
  ntp_capture_packets_total ntp_capture_parse_errors_total ntp_capture_loop_errors_total : Metric
  ntp_capture_kernel_drops_total ntp_capture_pending_overflow_total ntp_capture_rcvbuf_bytes :
      Metric
  ntp_client_requests_by_version_total ntp_client_requests_by_family_total : Metric
  ntp_client_request_interval_seconds ntp_response_latency_seconds ntppool_score : Metric
  ntppool_monitor_score ntppool_monitor_offset_seconds ntppool_monitor_rtt_seconds : Metric
  ntppool_scrape_success ntp_geoip_database_loaded : Metric

pub data Kind : Type 0 where
  counter gauge histogram : Kind

-- The bounds of the buckets are in nanoseconds, without the last one, which is infinite.
pub record Declaration : Type 0 where
  pub kind : Kind
  pub name : GoString
  pub labels : List GoString
  pub buckets : List ℕ

abbrev of_kind : Kind → GoString → List GoString → Declaration
of_kind kind name labels = record { kind = kind; name = name; labels = labels; buckets = [] }

abbrev with_buckets : GoString → List ℕ → Declaration
with_buckets name buckets = record { kind = histogram; name = name; labels = []; buckets = buckets }

-- `NewCounterVec`, `NewGauge` and so on; a metric that is no vector has no labels
unfoldable pub declared : Metric → Declaration
declared ntp_client_requests_total =
    of_kind counter (bytes "ntp_client_requests_total") (bytes "country" ∷ bytes "continent" ∷ [])
declared ntp_client_drops_total =
    of_kind counter (bytes "ntp_client_drops_total") (bytes "country" ∷ bytes "continent" ∷ [])
declared ntp_client_requests_by_asn_total =
    of_kind counter (bytes "ntp_client_requests_by_asn_total") (bytes "asn" ∷ bytes "as_org" ∷ [])
declared ntp_clients_active = of_kind gauge (bytes "ntp_clients_active") []
declared ntp_clients_unique_daily = of_kind gauge (bytes "ntp_clients_unique_daily") []
declared ntp_clients_scrape_success = of_kind gauge (bytes "ntp_clients_scrape_success") []
declared ntp_capture_packets_total =
    of_kind counter (bytes "ntp_capture_packets_total") (bytes "direction" ∷ [])
declared ntp_capture_parse_errors_total =
    of_kind counter (bytes "ntp_capture_parse_errors_total") []
declared ntp_capture_loop_errors_total = of_kind counter (bytes "ntp_capture_loop_errors_total") []
declared ntp_capture_kernel_drops_total =
    of_kind counter (bytes "ntp_capture_kernel_drops_total") []
declared ntp_capture_pending_overflow_total =
    of_kind counter (bytes "ntp_capture_pending_overflow_total") []
declared ntp_capture_rcvbuf_bytes = of_kind gauge (bytes "ntp_capture_rcvbuf_bytes") []
declared ntp_client_requests_by_version_total =
    of_kind counter (bytes "ntp_client_requests_by_version_total") (bytes "version" ∷ [])
declared ntp_client_requests_by_family_total =
    of_kind counter (bytes "ntp_client_requests_by_family_total") (bytes "family" ∷ [])
declared ntp_client_request_interval_seconds =
    with_buckets (bytes "ntp_client_request_interval_seconds") (
      500_000_000 ∷ 1_000_000_000 ∷ 2_000_000_000 ∷ 4_000_000_000 ∷ 8_000_000_000 ∷ 16_000_000_000
      ∷ 32_000_000_000 ∷ 64_000_000_000 ∷ 128_000_000_000 ∷ 256_000_000_000 ∷ 512_000_000_000 ∷ [])
declared ntp_response_latency_seconds = with_buckets (bytes "ntp_response_latency_seconds") (
    20_000 ∷ 50_000 ∷ 100_000 ∷ 200_000 ∷ 500_000 ∷ 1_000_000 ∷ 2_000_000 ∷ 5_000_000 ∷ 10_000_000
    ∷ 25_000_000 ∷ 50_000_000 ∷ [])
declared ntppool_score = of_kind gauge (bytes "ntppool_score") (bytes "ip" ∷ [])
declared ntppool_monitor_score =
    of_kind gauge (bytes "ntppool_monitor_score") (bytes "ip" ∷ bytes "monitor" ∷ [])
declared ntppool_monitor_offset_seconds =
    of_kind gauge (bytes "ntppool_monitor_offset_seconds") (bytes "ip" ∷ bytes "monitor" ∷ [])
declared ntppool_monitor_rtt_seconds =
    of_kind gauge (bytes "ntppool_monitor_rtt_seconds") (bytes "ip" ∷ bytes "monitor" ∷ [])
declared ntppool_scrape_success = of_kind gauge (bytes "ntppool_scrape_success") []
declared ntp_geoip_database_loaded =
    of_kind gauge (bytes "ntp_geoip_database_loaded") (bytes "db" ∷ [])

-- `Registry.MustRegister`
abbrev pub registered : List Metric
registered =
    ntp_client_requests_total ∷ ntp_client_drops_total ∷ ntp_client_requests_by_asn_total
    ∷ ntp_clients_active ∷ ntp_clients_unique_daily ∷ ntp_clients_scrape_success
    ∷ ntp_capture_packets_total ∷ ntp_capture_parse_errors_total ∷ ntp_capture_loop_errors_total
    ∷ ntp_capture_kernel_drops_total ∷ ntp_capture_pending_overflow_total ∷ ntp_capture_rcvbuf_bytes
    ∷ ntp_client_requests_by_version_total ∷ ntp_client_requests_by_family_total
    ∷ ntp_client_request_interval_seconds ∷ ntp_response_latency_seconds ∷ ntppool_score
    ∷ ntppool_monitor_score ∷ ntppool_monitor_offset_seconds ∷ ntppool_monitor_rtt_seconds
    ∷ ntppool_scrape_success ∷ ntp_geoip_database_loaded ∷ []

-- the series that `init` creates, with the values of their labels
abbrev pub seeded : List (Metric × List GoString)
seeded =
    (ntp_capture_packets_total, bytes "request" ∷ [])
    ∷ (ntp_capture_packets_total, bytes "response" ∷ [])
    ∷ (ntp_geoip_database_loaded, bytes "country" ∷ [])
    ∷ (ntp_geoip_database_loaded, bytes "asn" ∷ [])
    ∷ []

-- the first metric of a list that has a name
unfoldable pub find_name : GoString → List Metric → Option Metric
find_name n [] = none
find_name n (m ∷ ms) = if (declared m).name == n then some m else find_name n ms
