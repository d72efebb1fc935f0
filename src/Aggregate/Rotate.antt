-- ===== src/Aggregate/Rotate.antt =====
-- `currentBucketLocked` of exporter/internal/aggregate/aggregate.go, which compares hours of the
-- day, and the sketches that it empties.
use ntp_server.Base.{
  ℕ, zero, suc, ◌+◌, ◌-◌, ◌/◌, ◌%◌, ◌<◌, ◌≡◌, ◌≢◌, ◌∙◌, ◌&&◌, refl, ap, Bool, true, inl, inr, some,
  List, arith, length, set, get_elem?, length-set, get_elem?-set_self, get_elem?-set_ne, All,
  All-set, lt→ltb, ltb, leb, nat_eqb, if◌then◌else◌, Bool-cases, ok, Returns,
}
use ntp_server.Hll.{HyperLogLog, new_default}
use ntp_server.Aggregate.{Collector}
use ntp_server.Aggregate.Hours.{hour_of, put_hour, clear_hours, current_bucket}
use ntp_server.Aggregate.Valid.{IsValid, IsHourly, new_default-IsHourly}

-- how many hours after hour `h` of the day hour `j` next comes
abbrev pub after : ℕ → ℕ → ℕ
after h j = (j + 24 - h) % 24

pub put_hour-ok :
    (hourly : List HyperLogLog) (h : ℕ) (s : HyperLogLog)
    → h < length hourly
    → put_hour hourly h s ≡ ok (set hourly h s)
unfolding put_hour
put_hour-ok hourly h s lt = rw (lt→ltb h (length hourly) lt)

get_elem?-set {ℓ} :
    {A : Type ℓ} (xs : List A) (i j : ℕ) (v : A)
    → i < length xs
    → get_elem? (set xs i v) j ≡ (if nat_eqb i j then some v else get_elem? xs j)
get_elem?-set xs i j v h = elim (Bool-cases (nat_eqb i j)) [
  | inl e ↦ let e' : i ≡ j = ground arith in rw (e, ← e') (get_elem?-set_self xs i v h)
  | inr n ↦ rw n (get_elem?-set_ne xs i j v (ground arith))
]

-- the arithmetic of one step of the loop
step-le :
    (h hour j : ℕ)
    → h < 24
    → hour < 24
    → j < 24
    → h ≢ hour
    → h ≢ j
    → leb (after ((h + 1) % 24) j) (after ((h + 1) % 24) hour) ≡ leb (after h j) (after h hour)
step-le h hour j a b c n m = ground arith

module _ {ℓ} {A : Type ℓ} (h hour j : ℕ) (x y : A) where
  -- the last round of the loop
  same_hour :
      h < 24
      → j < 24
      → h ≡ hour
      → (if nat_eqb h j then x else y) ≡ (if leb (after h j) (after h hour) then x else y)
  same_hour a c e = ground arith

  -- what a round and those after it empty
  earlier :
      h < 24
      → hour < 24
      → j < 24
      → h ≢ hour
      → (if leb (after ((h + 1) % 24) j) (after ((h + 1) % 24) hour)
          then x
          else if nat_eqb h j
          then x
          else y)
        ≡ (if leb (after h j) (after h hour) then x else y)
  earlier a b c n = elim (Bool-cases (nat_eqb h j)) [
    | inl e ↦ ground arith
    | inr d ↦ rw (step-le h hour j a b c n (ground arith), d)
  ]

step-lt :
    (h hour : ℕ) {fuel : ℕ}
    → h < 24
    → hour < 24
    → h ≢ hour
    → after h hour < suc fuel
    → after ((h + 1) % 24) hour < fuel
step-lt h hour a b n f = omega arith

-- the hours that the loop starts from and ends at, against the old hour
skipped :
    (old hour j : ℕ)
    → old < 24
    → hour < 24
    → j < 24
    → hour ≢ old
    → leb (after ((old + 1) % 24) j) (after ((old + 1) % 24) hour)
      ≡ (ltb 0 (after old j) && leb (after old j) (after old hour))
skipped old hour j a b c n = ground arith

abbrev Cleared : ℕ → ℕ → List HyperLogLog → List HyperLogLog → Type 0
Cleared h hour hourly result =
    (j : ℕ)
    → j < 24
    → get_elem? result j
      ≡ (if leb (after h j) (after h hour) then some new_default else get_elem? hourly j)

clear_hours_lem :
    (fuel h hour : ℕ) (hourly : List HyperLogLog)
    → h < 24
    → hour < 24
    → length hourly ≡ 24
    → after h hour < fuel
    → All IsHourly hourly
    → Returns
        (clear_hours fuel h hour hourly)
        λ r. (length r ≡ 24) × All IsHourly r × Cleared h hour hourly r
unfolding clear_hours
clear_hours_lem zero h hour hourly a b l f w = absurd (omega arith)
clear_hours_lem (suc fuel) h hour hourly a b l f w =
    let cleared = set hourly h new_default in
    let wide : length cleared ≡ 24 = length-set hourly h new_default ∙ l in
    let w' = All-set IsHourly hourly h new_default new_default-IsHourly w in
    let at_j = λ (j : ℕ). get_elem?-set hourly h j new_default (omega arith) in
    elim (Bool-cases (nat_eqb h hour)) [
      | inl last ↦ (
        cleared,
        rw (put_hour-ok hourly h new_default (omega arith), last),
        (
          wide,
          w',
          λ j lt.
              rw (at_j j)
                (same_hour h hour j (some new_default) (get_elem? hourly j) a lt (ground arith)),
        ),
      )
      | inr on ↦
          let next : after ((h + 1) % 24) hour < fuel = step-lt h hour a b (ground arith) f in
          let (r, run, (size, valid, reads)) =
            clear_hours_lem fuel ((h + 1) % 24) hour cleared (omega arith) b wide next w' in
          (
            r,
            rw (put_hour-ok hourly h new_default (omega arith), on) run,
            (
              size,
              valid,
              λ j lt.
                  rw (reads j lt, at_j j)
                    (earlier h hour j (some new_default) (get_elem? hourly j) a b lt
                      (ground arith)),
            ),
          )
    ]

-- the hours of the day and their sketches can be replaced
pub IsValid-hourly :
    {c : Collector}
    → IsValid c
    → (hourly : List HyperLogLog) (hour : ℕ) (started : Bool) → length hourly ≡ 24
    → All IsHourly hourly
    → hour < 24
    → IsValid (record c { hourly = hourly; hour = hour; hour_set = started })
IsValid-hourly w hourly hour started l v lt = record {
  workers = w.workers;
  shards = w.shards;
  num_shards = w.num_shards;
  sweeping = w.sweeping;
  asn_totals = w.asn_totals;
  hourly = v;
  hours = l;
  hour = lt;
}

-- `result` is the sketches with those of the hours after the old one emptied, up to the new one
abbrev pub Rotated : ℕ → Collector → List HyperLogLog → Type 0
Rotated wall c result =
    (j : ℕ)
    → j < 24
    → get_elem? result j ≡ (
        if c.hour_set
          && (ltb 0 (after c.hour j) && leb (after c.hour j) (after c.hour (hour_of wall)))
        then some new_default
        else get_elem? c.hourly j)

-- `currentBucketLocked` on a valid collector, at any wall-clock time, ends without a panic and
-- keeps the collector valid. It sets the current hour of the day. If an earlier one was set, the
-- sketches of the hours of the day that follow it, going round the clock up to and with the new
-- one, are empty afterwards: none if the two are the same, whole days later too, and 23 if the
-- clock has gone back an hour. Every other sketch, and all the rest of the collector, is as
-- before.
pub current_bucket-Rotated :
    (wall : ℕ) {c : Collector}
    → IsValid c
    → Returns (current_bucket wall c) λ c'.
      IsValid c'
      × (c' ≡ record c { hourly = c'.hourly; hour = hour_of wall; hour_set = true })
      × Rotated wall c c'.hourly
unfolding current_bucket hour_of
current_bucket-Rotated wall {c} w =
    let hour : ℕ = wall / 3_600_000_000_000 % 24 in
    elim (Bool-cases c.hour_set) [
      | inr unset ↦ (
        record c { hour = hour; hour_set = true },
        rw (current_bucket, unset),
        (
          IsValid-hourly w c.hourly hour true w.hours w.hourly (omega arith),
          refl,
          λ j lt. rw unset,
        ),
      )
      | inl started ↦ elim (Bool-cases (nat_eqb hour c.hour)) [
        | inl same ↦
            (c, rw (current_bucket, started, same), (w, ground arith, λ j lt. ground arith))
        | inr other ↦
            let (r, run, (size, valid, reads)) =
              clear_hours_lem 24 ((c.hour + 1) % 24) hour c.hourly (omega arith) (omega arith)
                w.hours (omega arith) w.hourly in
            (
              record c { hourly = r; hour = hour },
              rw (current_bucket, started, other, run),
              (
                IsValid-hourly w r hour c.hour_set size valid (omega arith),
                rw started,
                λ j lt. rw started (
                    reads j lt
                    ∙ ap (λ (b : Bool). if b then some new_default else get_elem? c.hourly j)
                        (skipped c.hour hour j (omega arith) (omega arith) lt (ground arith))),
              ),
            )
      ]
    ]
