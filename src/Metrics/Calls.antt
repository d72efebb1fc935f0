-- ===== src/Metrics/Calls.antt =====
-- The calls of the exporter on its metrics, from exporter/internal/aggregate/aggregate.go,
-- exporter/internal/capture, and the setters of exporter/cmd/exporter/main.go.
use ntp_server.Base.{ℕ, Bool, List, [], ◌∷◌, GoString}
use ntp_server.Base.Int.{ℤ, pos}
use ntp_server.Aggregate.{
  Event, capture_packets, request_interval, pending_overflow, response_latency, kernel_drops,
  client_requests, client_drops, requests_by_asn, requests_by_version, requests_by_family,
  clients_active, clients_unique_daily,
}
use ntp_server.Capture.Filter.{CaptureEvent, parse_error, collected}
use ntp_server.Pool.Poll.{
  SetterCall, set_score, set_monitor_score, set_monitor_offset, set_monitor_rtt, scrape_success,
}
use ntp_server.Metrics.{
  Metric, ntp_client_requests_total, ntp_client_drops_total, ntp_client_requests_by_asn_total,
  ntp_clients_active, ntp_clients_unique_daily, ntp_capture_packets_total,
  ntp_capture_parse_errors_total, ntp_capture_kernel_drops_total,
  ntp_capture_pending_overflow_total, ntp_client_requests_by_version_total,
  ntp_client_requests_by_family_total, ntp_client_request_interval_seconds,
  ntp_response_latency_seconds, ntppool_score, ntppool_monitor_score,
  ntppool_monitor_offset_seconds, ntppool_monitor_rtt_seconds, ntppool_scrape_success,
  ntp_geoip_database_loaded,
}

-- `Inc`, `Add`, `Set` of an integer, of a truth value or of a float, and `Observe` of a duration
pub data Action (F : Type 0) : Type 0 where
  increases : Action F
  adds sets : ℕ → Action F
  sets_flag : Bool → Action F
  sets_float : F → Action F
  observes : ℤ → Action F

-- the metric, the values given for its labels, and what is called
pub record MetricCall (F : Type 0) : Type 0 where
  pub metric : Metric
  pub values : List GoString
  pub action : Action F

abbrev on : {F : Type 0} → Metric → List GoString → Action F → MetricCall F
on m values action = record { metric = m; values = values; action = action }

module _ {F : Type 0} where
  -- the calls of the collector
  unfoldable pub call_of : Event F → MetricCall F
  call_of (capture_packets direction) = on ntp_capture_packets_total (direction ∷ []) increases
  call_of (request_interval d) = on ntp_client_request_interval_seconds [] (observes d)
  call_of pending_overflow = on ntp_capture_pending_overflow_total [] increases
  call_of (response_latency d) = on ntp_response_latency_seconds [] (observes (pos d))
  call_of (kernel_drops n) = on ntp_capture_kernel_drops_total [] (adds n)
  call_of (client_requests country continent n) =
      on ntp_client_requests_total (country ∷ continent ∷ []) (adds n)
  call_of (client_drops country continent n) =
      on ntp_client_drops_total (country ∷ continent ∷ []) (adds n)
  call_of (requests_by_asn asn org n) =
      on ntp_client_requests_by_asn_total (asn ∷ org ∷ []) (adds n)
  call_of (requests_by_version version n) =
      on ntp_client_requests_by_version_total (version ∷ []) (adds n)
  call_of (requests_by_family family n) =
      on ntp_client_requests_by_family_total (family ∷ []) (adds n)
  call_of (clients_active n) = on ntp_clients_active [] (sets n)
  call_of (clients_unique_daily x) = on ntp_clients_unique_daily [] (sets_float x)

  -- the calls of `ProcessFrame`
  unfoldable pub capture_call : CaptureEvent F → MetricCall F
  capture_call parse_error = on ntp_capture_parse_errors_total [] increases
  capture_call (collected e) = call_of e

  -- the setters of the poller
  unfoldable pub setter_call : SetterCall F → MetricCall F
  setter_call (set_score ip v) = on ntppool_score (ip ∷ []) (sets_float v)
  setter_call (set_monitor_score ip monitor v) =
      on ntppool_monitor_score (ip ∷ monitor ∷ []) (sets_float v)
  setter_call (set_monitor_offset ip monitor v) =
      on ntppool_monitor_offset_seconds (ip ∷ monitor ∷ []) (sets_float v)
  setter_call (set_monitor_rtt ip monitor v) =
      on ntppool_monitor_rtt_seconds (ip ∷ monitor ∷ []) (sets_float v)
  setter_call (scrape_success done) = on ntppool_scrape_success [] (sets_flag done)

  -- the gauge of the resolver
  unfoldable pub loaded_call : GoString × Bool → MetricCall F
  loaded_call (db, loaded) = on ntp_geoip_database_loaded (db ∷ []) (sets_flag loaded)
