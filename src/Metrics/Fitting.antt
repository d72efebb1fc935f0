-- ===== src/Metrics/Fitting.antt =====
-- The calls on the metrics that the collector of exporter/internal/aggregate/aggregate.go makes
-- fit what exporter/internal/metrics/metrics.go declares.
use ntp_server.Base.{
  ℕ, ◌<◌, ◌≡◌, ◌⊎◌, refl, inl, inr, Bool, Option, none, some, List, [], ◌∷◌, ◌++◌, map, length,
  get_elem?, All, All-get, All-set, All-append, All-replicate, GoString, bytes, ◌==◌, string_eq,
  Bool-cases, Option-cases, if◌then◌else◌, max, Returns, length-replicate, ltb, leb, arith, ◌-◌,
  Run,
}
use ntp_server.Frame.Safety.{IsVersion}
use ntp_server.Aggregate.{
  Event, country_key_eq, capture_packets, request_interval, pending_overflow, response_latency,
  kernel_drops, client_requests, client_drops, requests_by_asn, requests_by_version,
  requests_by_family, clients_active, clients_unique_daily,
}
use ntp_server.Pool.Poll.{
  SetterCall, set_score, set_monitor_score, set_monitor_offset, set_monitor_rtt, scrape_success,
}
use ntp_server.Metrics.{
  ntp_client_requests_total, ntp_client_drops_total, ntp_client_requests_by_asn_total,
  ntp_clients_active, ntp_clients_unique_daily, ntp_clients_scrape_success,
  ntp_capture_parse_errors_total, ntp_capture_loop_errors_total, ntp_capture_kernel_drops_total,
  ntp_capture_pending_overflow_total, ntp_capture_rcvbuf_bytes, ntp_client_request_interval_seconds,
  ntp_response_latency_seconds, ntppool_score, ntppool_monitor_score,
  ntppool_monitor_offset_seconds, ntppool_monitor_rtt_seconds, ntppool_scrape_success,
  ntp_geoip_database_loaded, Metric, Kind, counter, gauge, histogram, declared, registered, seeded,
  find_name, ntp_capture_packets_total, ntp_client_requests_by_version_total,
  ntp_client_requests_by_family_total,
}
use ntp_server.Metrics.Calls.{
  Action, increases, adds, sets, sets_flag, sets_float, observes, MetricCall, call_of, setter_call,
  loaded_call,
}
use ntp_server.Metrics.Keys.{IsDirection, IsFamily}

-- the methods that a kind of metric has
abbrev pub Allows : {F : Type 0} → Kind → Action F → Type 0
Allows counter increases = Unit
Allows counter (adds n) = Unit
Allows gauge (sets n) = Unit
Allows gauge (sets_flag b) = Unit
Allows gauge (sets_float x) = Unit
Allows histogram (observes d) = Unit
Allows _ _ = ⊥

-- Few series: of the captured packets, those that are there from the start, and at most five
-- versions and two families.
abbrev pub Few : Metric → List GoString → Type 0
Few ntp_capture_packets_total values =
    (i : ℕ) × (get_elem? seeded i ≡ some (ntp_capture_packets_total, values))
Few ntp_client_requests_by_version_total values = (v : GoString) × (values ≡ v ∷ []) × IsVersion v
Few ntp_client_requests_by_family_total values = (a : GoString) × (values ≡ a ∷ []) × IsFamily a
Few _ values = Unit

-- A call of a metric that the registry has under its name, with a value for each of its labels, and
-- with a method of its kind.
pub record Fits {F : Type 0} (c : MetricCall F) : Type 0 where
  pub found : find_name (declared c.metric).name registered ≡ some c.metric
  pub arity : length c.values ≡ length (declared c.metric).labels
  pub kind : Allows (declared c.metric).kind c.action
  pub few : Few c.metric c.values

-- the labels of an event that come from a frame
abbrev pub Labelled : {F : Type 0} → Event F → Type 0
Labelled (capture_packets d) = IsDirection d
Labelled (requests_by_version v n) = IsVersion v
Labelled (requests_by_family a n) = IsFamily a
Labelled _ = Unit

IsDirection-seeded : (d : GoString) → IsDirection d → Few ntp_capture_packets_total (d ∷ [])
IsDirection-seeded d (inl e) = rw e (0, refl)
IsDirection-seeded d (inr e) = rw e (1, refl)

pub call_of-Fits : {F : Type 0} (e : Event F) → Labelled e → Fits (call_of e)
unfolding call_of declared find_name ntp_server.Base.list_eqb
call_of-Fits (capture_packets d) l = record {
  found = refl;
  arity = refl;
  kind = tt;
  few = IsDirection-seeded d l;
}
call_of-Fits (request_interval d) l = record { found = refl; arity = refl; kind = tt; few = tt }
call_of-Fits pending_overflow l = record { found = refl; arity = refl; kind = tt; few = tt }
call_of-Fits (response_latency d) l = record { found = refl; arity = refl; kind = tt; few = tt }
call_of-Fits (kernel_drops n) l = record { found = refl; arity = refl; kind = tt; few = tt }
call_of-Fits (client_requests x y n) l = record { found = refl; arity = refl; kind = tt; few = tt }
call_of-Fits (client_drops x y n) l = record { found = refl; arity = refl; kind = tt; few = tt }
call_of-Fits (requests_by_asn x y n) l = record { found = refl; arity = refl; kind = tt; few = tt }
call_of-Fits (requests_by_version v n) l = record {
  found = refl;
  arity = refl;
  kind = tt;
  few = (v, refl, l);
}
call_of-Fits (requests_by_family a n) l = record {
  found = refl;
  arity = refl;
  kind = tt;
  few = (a, refl, l);
}
call_of-Fits (clients_active n) l = record { found = refl; arity = refl; kind = tt; few = tt }
call_of-Fits (clients_unique_daily x) l = record { found = refl; arity = refl; kind = tt; few = tt }

-- The calls of the poller and of the resolver fit, too.
pub setter_call-Fits : {F : Type 0} (c : SetterCall F) → Fits (setter_call c)
unfolding setter_call declared find_name ntp_server.Base.list_eqb
setter_call-Fits (set_score ip v) = record { found = refl; arity = refl; kind = tt; few = tt }
setter_call-Fits (set_monitor_score ip monitor v) = record {
  found = refl;
  arity = refl;
  kind = tt;
  few = tt;
}
setter_call-Fits (set_monitor_offset ip monitor v) = record {
  found = refl;
  arity = refl;
  kind = tt;
  few = tt;
}
setter_call-Fits (set_monitor_rtt ip monitor v) = record {
  found = refl;
  arity = refl;
  kind = tt;
  few = tt;
}
setter_call-Fits (scrape_success done) = record { found = refl; arity = refl; kind = tt; few = tt }

pub loaded_call-Fits :
    {F : Type 0} (db : GoString) (loaded : Bool) → Fits {F = F} (loaded_call (db, loaded))
unfolding loaded_call declared find_name ntp_server.Base.list_eqb
loaded_call-Fits db loaded = record { found = refl; arity = refl; kind = tt; few = tt }

-- Each metric is registered, under a name that no other has.
pub found_by_name : (m : Metric) → find_name (declared m).name registered ≡ some m
unfolding declared find_name ntp_server.Base.list_eqb
found_by_name ntp_client_requests_total = refl
found_by_name ntp_client_drops_total = refl
found_by_name ntp_client_requests_by_asn_total = refl
found_by_name ntp_clients_active = refl
found_by_name ntp_clients_unique_daily = refl
found_by_name ntp_clients_scrape_success = refl
found_by_name ntp_capture_packets_total = refl
found_by_name ntp_capture_parse_errors_total = refl
found_by_name ntp_capture_loop_errors_total = refl
found_by_name ntp_capture_kernel_drops_total = refl
found_by_name ntp_capture_pending_overflow_total = refl
found_by_name ntp_capture_rcvbuf_bytes = refl
found_by_name ntp_client_requests_by_version_total = refl
found_by_name ntp_client_requests_by_family_total = refl
found_by_name ntp_client_request_interval_seconds = refl
found_by_name ntp_response_latency_seconds = refl
found_by_name ntppool_score = refl
found_by_name ntppool_monitor_score = refl
found_by_name ntppool_monitor_offset_seconds = refl
found_by_name ntppool_monitor_rtt_seconds = refl
found_by_name ntppool_scrape_success = refl
found_by_name ntp_geoip_database_loaded = refl
