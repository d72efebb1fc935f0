-- ===== src/Tests/Pools.antt =====
-- Polls of scores, with natural numbers for the numbers of a body.
use ntp_server.Base.{
  ℕ, zero, suc, ◌<◌, ◌/◌, ◌≡◌, ◌≢◌, refl, ap, sym, ◌∙◌, Bool, true, false, Option, none, some, List,
  [], ◌∷◌, ltb, nat_eqb, string_eq, arith, GoString, if◌then◌else◌, bytes, All, All-append,
  Bool-cases, list_eqb, inl, inr,
}
use ntp_server.Base.Int.{ℤ, pos, negsuc}
use ntp_server.Base.GoMap.{GoMap, lookup}
use ntp_server.Aggregate.Asn.{format_digits, format_int}
use ntp_server.Pool.Scores.{
  Numbers, FlexTs, HistoryEntry, Monitor, ScoreResponse, format_int64, name_of, monitors_by_id,
  parsed_of, int_eqb,
}
use ntp_server.Pool.Poll.{
  Answer, answer, no_answer, SetterCall, monitor_url, overall_url, poll_once,
}
use ntp_server.Pool.Latest.{newest?, map_monitor, entries_of, parsed_of-newest}
use ntp_server.Pool.Outcomes.{Reports, poll_once-Reports}

abbrev plain_numbers : Numbers ℕ
plain_numbers = record { zero_float = 0; less_float = ltb; over_1000 = λ n. n / 1000 }

abbrev at_number : ℕ → FlexTs ℕ
at_number n = record { num = n; str = []; is_num = true; set = true }

abbrev at_text : GoString → FlexTs ℕ
at_text s = record { num = 0; str = s; is_num = false; set = true }

abbrev entry : FlexTs ℕ → ℕ → ℤ → HistoryEntry ℕ
entry ts n id = record {
  ts = ts;
  score = some n;
  offset = none;
  rtt = some 5000;
  monitor_id = some id;
}

-- the times are a text, and two numbers
abbrev history : List (HistoryEntry ℕ)
history = entry (at_number 9) 20 (pos 1) ∷ entry (at_number 7) 10 (pos 1) ∷ []

abbrev response : ScoreResponse ℕ
response = record {
  monitors = record { id = some (pos 1); name = some (bytes "fra") } ∷ [];
  history = entry (at_text (bytes "2024")) 5 (pos 2) ∷ history;
}

abbrev IsDigit : ℕ → Type 0
IsDigit c = c < 58

format_digits_lem : (fuel n : ℕ) → All IsDigit (format_digits fuel n)
unfolding format_digits
format_digits_lem zero n = tt
format_digits_lem (suc fuel) n = elim (Bool-cases (ltb n 10)) [
  | inl t ↦ rw t (ground arith, tt)
  | inr f ↦ rw f (All-append IsDigit _ _ (format_digits_lem fuel (n / 10)) (ground arith, tt))
]

format_int_lem : (n : ℕ) → All IsDigit (format_int n)
unfolding format_int
format_int_lem n = format_digits_lem 20 n

no_digits : (s : GoString) → All IsDigit s → s ≢ bytes "fra"
no_digits s h e = let digits = rw e at h in absurd (omega (arith, digits.0))

abbrev first : GoString → ℕ
first [] = 0
first (c ∷ s) = c

not_fra : (id : ℤ) → format_int64 id ≢ bytes "fra"
unfolding format_int64
not_fra (pos n) = no_digits (format_int n) (format_int_lem n)
not_fra (negsuc n) = λ e. absurd (omega (arith, ap first e))

abbrev names : GoMap ℤ GoString
names = (pos 1, bytes "fra") ∷ []

names_run : monitors_by_id [] response.monitors ≡ names
unfolding monitors_by_id list_eqb ntp_server.Base.GoMap.insert ntp_server.Pool.Scores.meta_name
names_run = refl

only_fra : (j : ℤ) → name_of names j ≡ name_of names (pos 1) → j ≡ pos 1
unfolding name_of lookup
only_fra (pos n) e = elim (Bool-cases (nat_eqb 1 n)) [
  | inl t ↦ ap pos (ground arith)
  | inr f ↦ absurd (not_fra (pos n) (rw (name_of, lookup, f) at e))
]
only_fra (negsuc n) e = absurd (not_fra (negsuc n) e)

parsed_of-newest_example :
    lookup
      (name_of (monitors_by_id [] response.monitors) (pos 1))
      (parsed_of plain_numbers response).monitors
    ≡ map_monitor plain_numbers (newest? plain_numbers (entries_of (pos 1) response.history))
parsed_of-newest_example = parsed_of-newest plain_numbers response (pos 1) (rw names_run only_fra)

abbrev decode : List ℕ → Option (ScoreResponse ℕ)
decode [] = none
decode (c ∷ body) = some response

-- the second request has no answer
abbrev server : GoString → Answer
server url =
    if list_eqb url (monitor_url (bytes "192.0.2.1"))
    then answer 200 (some (bytes "{}"))
    else no_answer

poll_once-Reports_example :
    Reports decode
      (server (monitor_url (bytes "192.0.2.1")))
      (server (overall_url (bytes "192.0.2.1")))
      (poll_once plain_numbers decode server (bytes "192.0.2.1"))
poll_once-Reports_example =
    poll_once-Reports decode plain_numbers server (bytes "192.0.2.1") (λ e. cc)

-- the two entries of the first monitor
published_run :
    lookup (bytes "fra") (parsed_of plain_numbers response).monitors
    ≡ some (record { score = some 20; offset_seconds = none; rtt_seconds = some 5 })
unfolding lookup parsed_of ntp_server.Pool.Scores.publish_monitors
    ntp_server.Pool.Scores.latest_by_monitor ntp_server.Pool.Scores.put_latest
    ntp_server.Base.GoMap.insert ntp_server.Pool.Scores.newer ntp_server.Pool.Scores.less list_eqb
    name_of monitors_by_id format_int64 format_int ntp_server.Pool.Scores.meta_name
    ntp_server.Pool.Scores.monitor_of
published_run = refl

failed_run :
    poll_once plain_numbers decode server (bytes "192.0.2.1") ≡ SetterCall.scrape_success false ∷ []
unfolding poll_once list_eqb ntp_server.Pool.Poll.poll ntp_server.Pool.Poll.get_json monitor_url
    overall_url
failed_run = refl
