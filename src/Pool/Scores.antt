-- ===== src/Pool/Scores.antt =====
-- exporter/internal/ntppool/ntppool.go: `flexTS`, `Parse` and `ParseOverallScore`. What the JSON decoder
-- makes of a body, and the numbers that it decodes, are parameters.
use ntp_server.Base.{
  ℕ, ◌+◌, Bool, true, false, not, Option, none, some, List, [], ◌∷◌, ◌==◌, nat_eq, string_eq,
  nat_eqb, GoString, bytes, if◌then◌else◌, Equality, ◌≡◌, ◌↔◌, arith, Run, ok, panic,
}
use ntp_server.Base.Int.{ℤ, pos, negsuc}
use ntp_server.Base.GoMap.{GoMap, lookup, insert}
use ntp_server.Aggregate.Asn.{string_ltb, format_int}

abbrev pub int_eqb : ℤ → ℤ → Bool
int_eqb (pos a) (pos b) = nat_eqb a b
int_eqb (negsuc a) (negsuc b) = nat_eqb a b
int_eqb (pos a) (negsuc b) = false
int_eqb (negsuc a) (pos b) = false

pub int_eqb_iff : (a b : ℤ) → (int_eqb a b ≡ true) ↔ (a ≡ b)
int_eqb_iff a b = ground arith

instance abbrev pub int_eq : Equality ℤ
int_eq = record { equal = int_eqb; equal_iff = int_eqb_iff }

-- `fmt.Sprintf("%d", n)`
unfoldable pub format_int64 : ℤ → GoString
format_int64 (pos n) = format_int n
format_int64 (negsuc n) = b'-' ∷ format_int (n + 1)

-- What the package uses of the numbers of a decoded body: `0`, `<` and division by 1000.
pub record Numbers (F : Type 0) : Type 0 where
  pub zero_float : F
  pub less_float : F → F → Bool
  pub over_1000 : F → F

pub record Monitor (F : Type 0) : Type 0 where
  pub score : Option F
  pub offset_seconds : Option F
  pub rtt_seconds : Option F

pub record Parsed (F : Type 0) : Type 0 where
  pub score : Option F
  pub monitors : GoMap GoString (Monitor F)

-- `monitorMeta`
pub record MonitorMeta : Type 0 where
  pub id : Option ℤ
  pub name : Option GoString

-- `flexTS`
pub record FlexTs (F : Type 0) : Type 0 where
  pub num : F
  pub str : GoString
  pub is_num : Bool
  pub set : Bool

-- `historyEntry`
pub record HistoryEntry (F : Type 0) : Type 0 where
  pub ts : FlexTs F
  pub score : Option F
  pub offset : Option F
  pub rtt : Option F
  pub monitor_id : Option ℤ

-- `scoreResponse`
pub record ScoreResponse (F : Type 0) : Type 0 where
  pub monitors : List MonitorMeta
  pub history : List (HistoryEntry F)

-- `UnmarshalJSON`; `text` and `number` are `json.Unmarshal` into a string and a float, none is an
-- error, and `b[0]` of an empty slice is a panic
unfoldable pub unmarshal_ts :
    {F : Type 0}
    → (List ℕ → Option GoString)
    → (List ℕ → Option F)
    → List ℕ
    → FlexTs F
    → Run (Option (FlexTs F))
unmarshal_ts text number b t = if b == bytes "null" then ok (some t) else elim b [
  | [] ↦ panic
  | c ∷ rest ↦
      if nat_eqb c b'"'
      then elim (text (c ∷ rest)) [
        | none ↦ ok none
        | some s ↦ ok (some (record t { str = s; set = true }))
      ]
      else elim (number (c ∷ rest)) [
        | none ↦ ok none
        | some x ↦ ok (some (record t { num = x; is_num = true; set = true }))
      ]
]

-- the name of a monitor in the list of monitors
unfoldable pub meta_name : ℤ → Option GoString → GoString
meta_name id none = format_int64 id
meta_name id (some name) = if name == [] then format_int64 id else name

-- `monitorsByID`
unfoldable pub monitors_by_id : GoMap ℤ GoString → List MonitorMeta → GoMap ℤ GoString
monitors_by_id m [] = m
monitors_by_id m (meta ∷ metas) =
    monitors_by_id (elim meta.id [ none ↦ m | some id ↦ insert id (meta_name id meta.name) m ])
      metas

-- the name under which a monitor is published
unfoldable pub name_of : GoMap ℤ GoString → ℤ → GoString
name_of names mid = elim (lookup mid names) [ none ↦ format_int64 mid | some name ↦ name ]

module _ {F : Type 0} (num : Numbers F) where
  -- `t.less(o)`
  unfoldable pub less : FlexTs F → FlexTs F → Bool
  less t o =
      if not t.set
      then o.set
      else if not o.set
      then false
      else if t.is_num
      then (if o.is_num then num.less_float t.num o.num else false)
      else if o.is_num
      then true
      else string_ltb t.str o.str

  unfoldable pub newer : HistoryEntry F → HistoryEntry F → Bool
  newer a b = less b.ts a.ts

  -- the loop that looks for the newest entry
  unfoldable pub newest_from : HistoryEntry F → List (HistoryEntry F) → HistoryEntry F
  newest_from newest [] = newest
  newest_from newest (h ∷ history) = newest_from (if newer h newest then h else newest) history

  -- the score of the newest entry, none without one
  unfoldable pub newest_score : List (HistoryEntry F) → Option F
  newest_score [] = none
  newest_score (h ∷ history) = HistoryEntry.score (newest_from h history)

  -- one round of the loop over the history
  unfoldable pub put_latest : HistoryEntry F → GoMap ℤ (HistoryEntry F) → GoMap ℤ (HistoryEntry F)
  put_latest h m = elim h.monitor_id [
    | none ↦ m
    | some mid ↦ elim (lookup mid m) [
      | none ↦ insert mid h m
      | some cur ↦ if newer h cur then insert mid h m else m
    ]
  ]

  -- `latestByMonitor`
  unfoldable pub latest_by_monitor :
      GoMap ℤ (HistoryEntry F) → List (HistoryEntry F) → GoMap ℤ (HistoryEntry F)
  latest_by_monitor m [] = m
  latest_by_monitor m (h ∷ history) = latest_by_monitor (put_latest h m) history

  unfoldable pub monitor_of : HistoryEntry F → Monitor F
  monitor_of h = record {
    score = h.score;
    offset_seconds = h.offset;
    rtt_seconds = elim h.rtt [ none ↦ none | some rtt ↦ some (num.over_1000 rtt) ];
  }

  -- the loop that fills `result.Monitors`
  unfoldable pub publish_monitors :
      GoMap ℤ GoString
      → GoMap GoString (Monitor F)
      → GoMap ℤ (HistoryEntry F)
      → GoMap GoString (Monitor F)
  publish_monitors names acc [] = acc
  publish_monitors names acc ((mid, h) ∷ m) =
      publish_monitors names (insert (name_of names mid) (monitor_of h) acc) m

  unfoldable pub parsed_of : ScoreResponse F → Parsed F
  parsed_of resp = record {
    score = newest_score resp.history;
    monitors =
        publish_monitors (monitors_by_id [] resp.monitors) [] (latest_by_monitor [] resp.history);
  }

  module _ (decode : List ℕ → Option (ScoreResponse F)) where
    -- `Parse`; none is the decoder's error
    unfoldable pub parse : List ℕ → Option (Parsed F)
    parse body = elim (decode body) [ none ↦ none | some resp ↦ some (parsed_of resp) ]

    -- `ParseOverallScore`; the inner none is a nil score
    unfoldable pub parse_overall_score : List ℕ → Option (Option F)
    parse_overall_score body = elim (decode body) [
      | none ↦ none
      | some resp ↦ some (newest_score resp.history)
    ]
