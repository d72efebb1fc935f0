-- ===== src/Pool/Outcomes.antt =====
-- What `PollOnce` of exporter/internal/ntppool/ntppool.go reports: scores only of a cycle in which
-- every step succeeds.
use ntp_server.Base.{
  ℕ, ◌≤◌, ◌<◌, ◌≡◌, ◌≢◌, ◌⊎◌, ltb, leb, ◌||◌, refl, sym, ◌∙◌, true, false, inl, inr, Option, none,
  some, List, [], ◌∷◌, ◌++◌, arith, Bool-cases, Option-cases, ◌==◌, string_eq, GoString, All,
  All-append, list_eqb,
}
use mathlib.Core.List.{append_assoc}
use ntp_server.Base.GoMap.{GoMap}
use ntp_server.Pool.Scores.{
  Numbers, Monitor, Parsed, ScoreResponse, parse, parse_overall_score, parsed_of, newest_score,
}
use ntp_server.Pool.Poll.{
  Answer, bad_request, no_answer, answer, SetterCall, set_score, scrape_success, get_json,
  monitor_url, overall_url, maybe_call, publish_monitor, publish_all, publish_scores, poll,
  poll_once,
}

module _ {F : Type 0} where
  -- a call that sets a score, not the success
  abbrev pub IsScore : SetterCall F → Type 0
  IsScore (scrape_success b) = ⊥
  IsScore call = Unit

  maybe_call-IsScore :
      (call : F → SetterCall F) (o : Option F)
      → ((v : F) → IsScore (call v))
      → All IsScore (maybe_call call o)
  unfolding maybe_call
  maybe_call-IsScore call none h = tt
  maybe_call-IsScore call (some v) h = (h v, tt)

  publish_all-IsScore :
      (ip : GoString) (m : GoMap GoString (Monitor F)) → All IsScore (publish_all ip m)
  unfolding publish_all publish_monitor
  publish_all-IsScore ip [] = tt
  publish_all-IsScore ip ((monitor, vals) ∷ m) =
      All-append IsScore _ (publish_all ip m)
        (All-append IsScore _ _ (maybe_call-IsScore _ vals.score (λ v. tt)) (
          All-append IsScore _ _ (maybe_call-IsScore _ vals.offset_seconds (λ v. tt))
            (maybe_call-IsScore _ vals.rtt_seconds (λ v. tt))))
        (publish_all-IsScore ip m)

  module _ (decode : List ℕ → Option (ScoreResponse F)) where
    -- The request has an answer with a success status and a body that decodes.
    abbrev pub Gets : Answer → ScoreResponse F → Type 0
    Gets a r =
        (status : ℕ) × (body : List ℕ) × (a ≡ answer status (some body))
        × (200 ≤ status)
        × (status < 300)
        × (decode body ≡ some r)

    -- what a request comes to
    abbrev pub got : Answer → Option (ScoreResponse F)
    got a = elim (get_json a) [ none ↦ none | some body ↦ decode body ]

    got-Gets : (a : Answer) (r : ScoreResponse F) → got a ≡ some r → Gets a r
    unfolding get_json
    got-Gets bad_request r e = cc
    got-Gets no_answer r e = cc
    got-Gets (answer status none) r e = elim (Bool-cases (ltb status 200 || leb 300 status)) [
      | inl t ↦ absurd (cc)
      | inr f ↦ absurd (cc)
    ]
    got-Gets (answer status (some body)) r e =
        elim (Bool-cases (ltb status 200 || leb 300 status)) [
          | inl t ↦ absurd (cc)
          | inr f ↦ (status, body, refl, ground arith, ground arith, cc)
        ]

    Gets-got : (a : Answer) (r : ScoreResponse F) → Gets a r → got a ≡ some r
    unfolding get_json
    Gets-got a r (status, body, is, low, high, decoded) = rw is (ground (arith, decoded))

    -- The calls of one cycle: a report of failure alone, and a request that has not come to
    -- anything; or scores with a report of success behind them, and what both requests came to.
    abbrev pub Reports : Answer → Answer → List (SetterCall F) → Type 0
    Reports first second calls =
        ((calls ≡ scrape_success false ∷ [])
          × ((r o : ScoreResponse F) → Gets first r → ¬ Gets second o))
        ⊎ ((r : ScoreResponse F) × (o : ScoreResponse F) × (scores : List (SetterCall F)) × Gets
              first r
            × Gets second o
            × (calls ≡ scores ++ (scrape_success true ∷ []))
            × All IsScore scores)

    module _ (num : Numbers F) where
      -- what a poll comes to, by what its requests come to
      abbrev both :
          Option (ScoreResponse F) → Option (ScoreResponse F) → Option (Parsed F × Option F)
      both (some r) (some o) = some (parsed_of num r, newest_score num o.history)
      both _ _ = none

      poll-got :
          (respond : GoString → Answer) (ip : GoString)
          → poll num decode respond ip
            ≡ both (got (respond (monitor_url ip))) (got (respond (overall_url ip)))
      unfolding poll parse parse_overall_score
      poll-got respond ip = elim (Option-cases (get_json (respond (monitor_url ip)))) [
        | inl failed ↦ rw (poll, failed) (ground arith)
        | inr (body, e) ↦ elim (Option-cases (get_json (respond (overall_url ip)))) [
          | inl failed ↦ rw (poll, e, failed) (ground arith)
          | inr (overall_body, f) ↦ rw (poll, e, f) (ground arith)
        ]
      ]

      set_address : (ip : GoString) → ip ≢ [] → (ip == []) ≡ false
      unfolding list_eqb
      set_address [] h = absurd (h refl)
      set_address (c ∷ ip) h = refl

      poll_once-both :
          (respond : GoString → Answer) (ip : GoString) (r : Option (Parsed F × Option F))
          → ip ≢ []
          → both (got (respond (monitor_url ip))) (got (respond (overall_url ip))) ≡ r
          → poll_once num decode respond ip ≡ elim r [
            | none ↦ scrape_success false ∷ []
            | some (parsed, overall) ↦ publish_scores ip parsed overall
          ]
      unfolding poll_once
      poll_once-both respond ip r set e = rw (set_address ip set, poll-got respond ip, e)

      -- With an address set, a poll reports success, after the scores, exactly if both requests have
      -- an answer with a 2xx status whose body decodes; else it reports failure and no score.
      pub poll_once-Reports :
          (respond : GoString → Answer) (ip : GoString)
          → ip ≢ []
          → Reports
              (respond (monitor_url ip))
              (respond (overall_url ip))
              (poll_once num decode respond ip)
      unfolding poll_once publish_scores
      poll_once-Reports respond ip set = elim (Option-cases (got (respond (monitor_url ip)))) [
        | inl failed ↦ inl (
          poll_once-both respond ip none set (rw failed),
          λ r o first second. let come = Gets-got _ r first in cc,
        )
        | inr (r, e) ↦ elim (Option-cases (got (respond (overall_url ip)))) [
          | inl failed ↦ inl (
            poll_once-both respond ip none set (rw (e, failed)),
            λ r o first second. let come = Gets-got _ o second in cc,
          )
          | inr (o, f) ↦
              let score = maybe_call (set_score ip) (newest_score num o.history) in
              let monitors = publish_all ip (parsed_of num r).monitors in
              inr (
                r,
                o,
                score ++ monitors,
                got-Gets _ r e,
                got-Gets _ o f,
                poll_once-both respond ip (some (parsed_of num r, newest_score num o.history)) set
                      (rw (e, f))
                    ∙ sym (append_assoc score monitors (scrape_success true ∷ [])),
                All-append IsScore score monitors
                    (maybe_call-IsScore _ (newest_score num o.history) (λ v. tt))
                    (publish_all-IsScore ip (parsed_of num r).monitors),
              )
        ]
      ]
