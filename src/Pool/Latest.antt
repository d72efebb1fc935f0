-- ===== src/Pool/Latest.antt =====
-- What `Parse` of exporter/internal/ntppool/ntppool.go says of one monitor, against a reference
-- definition: the newest entry among those of the monitor.
use ntp_server.Base.{
  ◌≡◌, ◌⊎◌, refl, ◌∙◌, ap, Bool, true, false, inl, inr, Option, none, some, List, [], ◌∷◌, arith,
  if◌then◌else◌, Bool-cases, Option-cases, ◌==◌, string_eq, GoString, list_eqb_iff,
}
use ntp_server.Base.Int.{ℤ}
use ntp_server.Base.GoMap.{GoMap, lookup, insert, lookup-insert, UniqueKeys, insert-UniqueKeys}
use ntp_server.Pool.Scores.{
  Numbers, HistoryEntry, Monitor, ScoreResponse, int_eq, int_eqb_iff, newer, newest_from,
  put_latest, latest_by_monitor, monitor_of, monitors_by_id, name_of, publish_monitors, parsed_of,
}

abbrev pub is_of : ℤ → Option ℤ → Bool
is_of mid none = false
is_of mid (some j) = j == mid

module _ {F : Type 0} where
  -- the entries of one monitor, in their order
  unfoldable pub entries_of : ℤ → List (HistoryEntry F) → List (HistoryEntry F)
  entries_of mid [] = []
  entries_of mid (h ∷ history) =
      let rest = entries_of mid history in if is_of mid h.monitor_id then h ∷ rest else rest

module _ {F : Type 0} (num : Numbers F) where
  -- the newest entry of a list
  unfoldable pub newest? : List (HistoryEntry F) → Option (HistoryEntry F)
  newest? [] = none
  newest? (h ∷ history) = some (newest_from num h history)

  -- the newest entry so far, and then the rest
  abbrev onward : Option (HistoryEntry F) → List (HistoryEntry F) → Option (HistoryEntry F)
  onward none history = newest? history
  onward (some e) history = some (newest_from num e history)

  lookup-put_latest :
      (mid : ℤ) (h : HistoryEntry F) (m : GoMap ℤ (HistoryEntry F))
      (history : List (HistoryEntry F))
      → onward (lookup mid (put_latest num h m)) history
        ≡ onward (lookup mid m) (if is_of mid h.monitor_id then h ∷ history else history)
  unfolding put_latest newest? newest_from
  lookup-put_latest mid h m history = elim (Option-cases h.monitor_id) [
    | inl none_set ↦ rw (put_latest, none_set)
    | inr (j, e) ↦ elim (Option-cases (lookup j m)) [
      | inl fresh ↦
          rw (put_latest, e, fresh) (ground (arith, int_eqb_iff j mid, lookup-insert j mid h m))
      | inr (cur, old) ↦ elim (Bool-cases (newer num h cur)) [
        | inl later ↦
            rw (put_latest, e, old, later)
              (ground (arith, int_eqb_iff j mid, lookup-insert j mid h m))
        | inr not_later ↦ rw (put_latest, e, old, not_later) (ground (arith, int_eqb_iff j mid))
      ]
    ]
  ]

  onward_nil : (o : Option (HistoryEntry F)) → o ≡ onward o []
  unfolding newest? newest_from
  onward_nil none = refl
  onward_nil (some e) = refl

  lookup-latest :
      (mid : ℤ) (history : List (HistoryEntry F)) (m : GoMap ℤ (HistoryEntry F))
      → lookup mid (latest_by_monitor num m history)
        ≡ onward (lookup mid m) (entries_of mid history)
  unfolding latest_by_monitor entries_of
  lookup-latest mid [] m = onward_nil (lookup mid m)
  lookup-latest mid (h ∷ history) m =
      lookup-latest mid history (put_latest num h m)
      ∙ lookup-put_latest mid h m (entries_of mid history)

  put_latest-UniqueKeys :
      (h : HistoryEntry F) (m : GoMap ℤ (HistoryEntry F))
      → UniqueKeys m
      → UniqueKeys (put_latest num h m)
  unfolding put_latest
  put_latest-UniqueKeys h m u = elim (Option-cases h.monitor_id) [
    | inl none_set ↦ rw (put_latest, none_set) u
    | inr (j, e) ↦ elim (Option-cases (lookup j m)) [
      | inl fresh ↦ rw (put_latest, e, fresh) (insert-UniqueKeys j h m u)
      | inr (cur, old) ↦ elim (Bool-cases (newer num h cur)) [
        | inl later ↦ rw (put_latest, e, old, later) (insert-UniqueKeys j h m u)
        | inr not_later ↦ rw (put_latest, e, old, not_later) u
      ]
    ]
  ]

  latest_by_monitor-UniqueKeys :
      (history : List (HistoryEntry F)) (m : GoMap ℤ (HistoryEntry F))
      → UniqueKeys m
      → UniqueKeys (latest_by_monitor num m history)
  unfolding latest_by_monitor
  latest_by_monitor-UniqueKeys [] m u = u
  latest_by_monitor-UniqueKeys (h ∷ history) m u =
      latest_by_monitor-UniqueKeys history (put_latest num h m) (put_latest-UniqueKeys h m u)

  abbrev pub map_monitor : Option (HistoryEntry F) → Option (Monitor F)
  map_monitor none = none
  map_monitor (some h) = some (monitor_of num h)

  -- the entry of one monitor among the published ones
  abbrev or_else : Option (HistoryEntry F) → Option (Monitor F) → Option (Monitor F)
  or_else none o = o
  or_else (some h) o = some (monitor_of num h)

  lookup-publish :
      (names : GoMap ℤ GoString) (mid : ℤ) (m : GoMap ℤ (HistoryEntry F))
      (acc : GoMap GoString (Monitor F))
      → ((j : ℤ) → name_of names j ≡ name_of names mid → j ≡ mid)
      → UniqueKeys m
      → lookup (name_of names mid) (publish_monitors num names acc m)
        ≡ or_else (lookup mid m) (lookup (name_of names mid) acc)
  unfolding publish_monitors lookup
  lookup-publish names mid [] acc only u = refl
  lookup-publish names mid ((j, h) ∷ m) acc only u =
      lookup-publish names mid m (insert (name_of names j) (monitor_of num h) acc) only u.1
      ∙ here (Bool-cases (j == mid))
    where
      here :
          ((j == mid) ≡ true) ⊎ ((j == mid) ≡ false)
          → or_else
              (lookup mid m)
              (lookup (name_of names mid) (insert (name_of names j) (monitor_of num h) acc))
            ≡ or_else (lookup mid ((j, h) ∷ m)) (lookup (name_of names mid) acc)
      here (inl same) =
          let e : j ≡ mid = (int_eqb_iff j mid).0 same in
          let gone : lookup mid m ≡ none = rw (← e) u.0 in
          ground (
            arith,
            ap (name_of names) e,
            lookup-insert (name_of names j) (name_of names mid) (monitor_of num h) acc,
            list_eqb_iff (name_of names j) (name_of names mid),
          )
      here (inr other) = ground (
        arith,
        only j,
        int_eqb_iff j mid,
        lookup-insert (name_of names j) (name_of names mid) (monitor_of num h) acc,
        list_eqb_iff (name_of names j) (name_of names mid),
      )

  map_monitor_lem : (o : Option (HistoryEntry F)) → or_else o none ≡ map_monitor o
  map_monitor_lem none = refl
  map_monitor_lem (some h) = refl

  -- What `Parse` publishes of a monitor whose name no other monitor id has: the values of the newest
  -- of its entries in the history, and nothing if it has none.
  pub parsed_of-newest :
      (resp : ScoreResponse F) (mid : ℤ)
      → ((j : ℤ)
          → name_of (monitors_by_id [] resp.monitors) j
            ≡ name_of (monitors_by_id [] resp.monitors) mid
          → j ≡ mid)
      → lookup (name_of (monitors_by_id [] resp.monitors) mid) (parsed_of num resp).monitors
        ≡ map_monitor (newest? (entries_of mid resp.history))
  unfolding parsed_of lookup
  parsed_of-newest resp mid only =
      let latest = latest_by_monitor num [] resp.history in
      lookup-publish (monitors_by_id [] resp.monitors) mid latest [] only
        (latest_by_monitor-UniqueKeys resp.history [] tt)
      ∙ map_monitor_lem (lookup mid latest)
      ∙ ap map_monitor (lookup-latest mid resp.history [])
