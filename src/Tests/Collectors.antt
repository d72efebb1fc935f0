-- ===== src/Tests/Collectors.antt =====
-- A collector with two workers: a request on one, a response on the other.
use ntp_server.Base.{
  ℕ, ◌≡◌, refl, list_eqb, true, none, some, List, [], ◌∷◌, arith, length-replicate, get_elem?,
  replicate, GoString, bytes, ◌>>=◌, Returns, string_eq,
}
use ntp_server.Frame.{request, response, ipv4}
use ntp_server.Aggregate.{
  Collector, Shard, GeoResult, Event, new, num_shards, empty_shard, new_worker_counters,
  shard_index, pending_key, pending_max, pending_ttl, capture_packets, response_latency,
}
use ntp_server.Aggregate.Hours.{hour_of, current_bucket}
use ntp_server.Aggregate.Handle.{Frame, Reading, handle_frame}
use ntp_server.Aggregate.Valid.{IsValid, new-IsValid}
use ntp_server.Aggregate.Rotate.{Rotated, current_bucket-Rotated}
use ntp_server.Aggregate.Keeps.{IsValidOf}
use ntp_server.Aggregate.Pending.{pending_at}
use ntp_server.Aggregate.Latency.{handle_all, Unrelated, request_response}

abbrev pub identity : List ℕ → List ℕ
identity key = key

abbrev pub nowhere : GeoResult
nowhere = record {
  country = bytes "Unknown";
  continent = bytes "Unknown";
  asn = 64500;
  has_asn = true;
  as_org = bytes "Example";
}

abbrev pub noon : Reading
noon = record { geo = nowhere; clock = 5; wall = 43_200_000_000_000 }

abbrev client : GoString
client = bytes "192.0.2.7"

abbrev first : List ℕ
first = 1 ∷ 2 ∷ []

abbrev pub asked : Frame
asked = record {
  worker = 0;
  direction = request;
  ip = client;
  family = ipv4;
  version = bytes "4";
  xid = some first;
  ts = 100;
}

abbrev answered : Frame
answered = record asked { worker = 1; direction = response; ts = 130 }

abbrev other : Frame
other = record asked { worker = 1; xid = some (3 ∷ 4 ∷ []); ts = 120 }

abbrev pub two_workers : Collector
two_workers = new 25 2

pub two_workers_lem : IsValidOf 2 two_workers
unfolding new
two_workers_lem = ((new-IsValid 25 2).0, length-replicate {0} 2 new_worker_counters)

current_bucket-Rotated_example : Returns (current_bucket noon.wall two_workers) λ c.
    IsValid c
    × (c ≡ record two_workers { hourly = c.hourly; hour = hour_of noon.wall; hour_set = true })
    × Rotated noon.wall two_workers c.hourly
current_bucket-Rotated_example = current_bucket-Rotated noon.wall two_workers_lem.0

found : get_elem? two_workers.shards (shard_index client) ≡ some empty_shard
unfolding new shard_index ntp_server.Aggregate.fnv32a replicate
found = refl

other-Unrelated : Unrelated ℕ identity 2 (pending_key client first) 100 (noon, other)
unfolding pending_key
other-Unrelated = (omega arith, λ h. cc, omega arith)

request_response_example :
    Returns
      (do
        (c₁, e₁) ← handle_frame {F = ℕ} identity noon asked two_workers
        (c₂, e₂) ← handle_all ℕ identity 2 ((noon, other) ∷ []) c₁
        handle_frame {F = ℕ} identity noon answered c₂)
      (λ u.
        (u.1 ≡ capture_packets response ∷ response_latency 30 ∷ [])
        × (pending_at u.0 (shard_index client) (pending_key client first) ≡ none))
unfolding list_eqb
request_response_example =
    request_response ℕ identity 2 noon noon asked answered ((noon, other) ∷ []) first
      two_workers_lem (omega arith, omega arith) refl refl (refl, refl, refl)
      (omega arith, omega arith) found (omega arith) (other-Unrelated, tt)
