-- ===== src/Pool/Poll.antt =====
-- exporter/internal/ntppool/ntppool.go: `getJSON` and `PollOnce`. What the server answers to a URL is
-- an argument; the calls of the setters are the result, in their order.
use ntp_server.Base.{
  ℕ, Bool, true, false, ◌||◌, Option, none, some, List, [], ◌∷◌, ◌++◌, ltb, leb, string_eq, ◌==◌,
  GoString, bytes, if◌then◌else◌,
}
use ntp_server.Base.GoMap.{GoMap}
use ntp_server.Pool.Scores.{Numbers, Monitor, Parsed, ScoreResponse, parse, parse_overall_score}

-- `fmt.Sprintf` of `URLTemplate` and of `OverallURLTemplate`
unfoldable pub monitor_url : GoString → GoString
monitor_url ip = bytes "https://www.ntppool.org/scores/" ++ (ip ++ bytes "/json?limit=10&monitor=*")

unfoldable pub overall_url : GoString → GoString
overall_url ip = bytes "https://www.ntppool.org/scores/" ++ (ip ++ bytes "/json?limit=1")

-- What becomes of a request: it cannot be built, it fails, or there is an answer with a status and a
-- body, none if the body cannot be read.
pub data Answer : Type 0 where
  bad_request no_answer : Answer
  answer : ℕ → Option (List ℕ) → Answer

-- `getJSON`; none is an error
unfoldable pub get_json : Answer → Option (List ℕ)
get_json bad_request = none
get_json no_answer = none
get_json (answer status body) = if ltb status 200 || leb 300 status then none else body

-- The calls of `Setters`; success is 1 or 0.
pub data SetterCall (F : Type 0) : Type 0 where
  set_score : GoString → F → SetterCall F
  set_monitor_score set_monitor_offset set_monitor_rtt : GoString → GoString → F → SetterCall F
  scrape_success : Bool → SetterCall F

module _ {F : Type 0} where
  unfoldable pub maybe_call : (F → SetterCall F) → Option F → List (SetterCall F)
  maybe_call call none = []
  maybe_call call (some v) = call v ∷ []

  unfoldable pub publish_monitor : GoString → GoString → Monitor F → List (SetterCall F)
  publish_monitor ip monitor vals =
      maybe_call (set_monitor_score ip monitor) vals.score
      ++ (maybe_call (set_monitor_offset ip monitor) vals.offset_seconds
          ++ maybe_call (set_monitor_rtt ip monitor) vals.rtt_seconds)

  unfoldable pub publish_all : GoString → GoMap GoString (Monitor F) → List (SetterCall F)
  publish_all ip [] = []
  publish_all ip ((monitor, vals) ∷ m) = publish_monitor ip monitor vals ++ publish_all ip m

  -- what a cycle without an error publishes
  unfoldable pub publish_scores : GoString → Parsed F → Option F → List (SetterCall F)
  publish_scores ip parsed overall =
      maybe_call (set_score ip) overall
      ++ (publish_all ip parsed.monitors ++ (scrape_success true ∷ []))

  module _ (num : Numbers F) (decode : List ℕ → Option (ScoreResponse F)) where
    -- the two requests and the two bodies, in the order of the code; none is any of the four errors
    unfoldable pub poll : (GoString → Answer) → GoString → Option (Parsed F × Option F)
    poll respond ip = elim (get_json (respond (monitor_url ip))) [
      | none ↦ none
      | some body ↦ elim (get_json (respond (overall_url ip))) [
        | none ↦ none
        | some overall_body ↦ elim (parse num decode body) [
          | none ↦ none
          | some parsed ↦ elim (parse_overall_score num decode overall_body) [
            | none ↦ none
            | some overall ↦ some (parsed, overall)
          ]
        ]
      ]
    ]

    -- `PollOnce`
    unfoldable pub poll_once : (GoString → Answer) → GoString → List (SetterCall F)
    poll_once respond ip = if ip == [] then [] else elim (poll respond ip) [
      | none ↦ scrape_success false ∷ []
      | some (parsed, overall) ↦ publish_scores ip parsed overall
    ]
