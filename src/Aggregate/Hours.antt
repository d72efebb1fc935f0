-- ===== src/Aggregate/Hours.antt =====
-- exporter/internal/aggregate/aggregate.go: `currentBucketLocked`, the sketch of the current hour.
use ntp_server.Base.{
  ℕ, zero, suc, ◌+◌, ◌/◌, ◌%◌, true, List, length, set, get_elem?, ltb, nat_eqb, if◌then◌else◌, Run,
  ok, panic, ◌>>=◌, or_panic, not,
}
use ntp_server.Hll.{HyperLogLog, new_default, add}
use ntp_server.Base.{GoString}
use ntp_server.Aggregate.{Collector}

-- `wallNow.UTC().Hour()`
unfoldable pub hour_of : ℕ → ℕ
hour_of wall = wall / 3_600_000_000_000 % 24

-- `c.hourly[h] = s`
unfoldable pub put_hour : List HyperLogLog → ℕ → HyperLogLog → Run (List HyperLogLog)
put_hour hourly h s = if ltb h (length hourly) then ok (set hourly h s) else panic

-- the loop that empties the sketches from hour `h` up to and with `hour`; no fuel is a `panic` too
unfoldable pub clear_hours : ℕ → ℕ → ℕ → List HyperLogLog → Run (List HyperLogLog)
clear_hours zero h hour hourly = panic
clear_hours (suc fuel) h hour hourly = do
  cleared ← put_hour hourly h new_default
  let rest = clear_hours fuel ((h + 1) % 24) hour cleared
  if nat_eqb h hour then ok cleared else rest

-- `currentBucketLocked`; the bucket that it returns is `hourly[hour]` of the new state
unfoldable pub current_bucket : ℕ → Collector → Run Collector
current_bucket wall c =
    let hour = hour_of wall in
    if not c.hour_set
    then ok (record c { hour = hour; hour_set = true })
    else if not (nat_eqb hour c.hour)
    then (do
      hourly ← clear_hours 24 ((c.hour + 1) % 24) hour c.hourly
      ok (record c { hourly = hourly; hour = hour }))
    else ok c

-- `c.currentBucketLocked(c.wall()).Add(ip)`
unfoldable pub add_to_current_bucket : (List ℕ → List ℕ) → ℕ → GoString → Collector → Run Collector
add_to_current_bucket sha1 wall ip c = do
  c' ← current_bucket wall c
  s ← or_panic (get_elem? c'.hourly (hour_of wall))
  s' ← add sha1 s ip
  hourly ← put_hour c'.hourly (hour_of wall) s'
  ok (record c' { hourly = hourly })
