-- ===== src/Aggregate/Flush/Drops.antt =====
-- What `Flush` of exporter/internal/aggregate/aggregate.go publishes of the kernel's drops.
use ntp_server.Base.{
  ℕ, ◌+◌, ◌-◌, ◌≤◌, ◌≡◌, refl, Bool, Option, none, some, List, [], ◌∷◌, ◌++◌, arith, GoString,
}
use ntp_server.Base.GoMap.{GoMap}
use ntp_server.Aggregate.{
  Event, kernel_drops, WorkerCounters, clients_active, clients_unique_daily, CountryKey, AsnKey,
}
use ntp_server.Aggregate.Asn.{Kv, top_n_asns}
use ntp_server.Aggregate.Flush.{
  read_drops, publish, publish_requests, publish_asns, publish_versions, publish_families,
}

-- readings, the first of which may be missing
unfoldable pub and_then : Option ℕ → List ℕ → List ℕ
and_then none rs = rs
and_then (some cur) rs = cur ∷ rs

-- by how much a number that starts at `last` rises in all, and where it ends
unfoldable pub rises : ℕ → List ℕ → ℕ
rises last [] = 0
rises last (cur ∷ rs) = (cur - last) + rises cur rs

unfoldable pub last_of : ℕ → List ℕ → ℕ
last_of last [] = last
last_of last (cur ∷ rs) = last_of cur rs

-- what a call on the metrics adds to the kernel's drops
unfoldable pub kernel_posts : {F : Type 0} → Event F → ℕ
kernel_posts (kernel_drops n) = n
kernel_posts e = 0

unfoldable pub kernel_posted : {F : Type 0} → List (Event F) → ℕ
kernel_posted [] = 0
kernel_posted (e ∷ es) = kernel_posts e + kernel_posted es

module _ {F : Type 0} where
  pub kernel_posted-append :
      (es ds : List (Event F)) → kernel_posted (es ++ ds) ≡ kernel_posted es + kernel_posted ds
  unfolding kernel_posted
  kernel_posted-append [] ds = omega arith
  kernel_posted-append (e ∷ es) ds = omega (arith, kernel_posted-append es ds)

module _ (F : Type 0) where
  kernel_posted-requests :
      (responses m : GoMap CountryKey ℕ) → kernel_posted (publish_requests {F = F} responses m) ≡ 0
  unfolding publish_requests kernel_posted kernel_posts
  kernel_posted-requests responses [] = refl
  kernel_posted-requests responses ((k, n) ∷ m) = ground (arith, kernel_posted-requests responses m)

  kernel_posted-asns :
      (top : List ℕ) (m : GoMap AsnKey ℕ) → kernel_posted (publish_asns {F = F} top m) ≡ 0
  unfolding publish_asns kernel_posted kernel_posts
  kernel_posted-asns top [] = refl
  kernel_posted-asns top ((k, n) ∷ m) = ground (arith, kernel_posted-asns top m)

  kernel_posted-versions : (m : GoMap GoString ℕ) → kernel_posted (publish_versions {F = F} m) ≡ 0
  unfolding publish_versions kernel_posted kernel_posts
  kernel_posted-versions [] = refl
  kernel_posted-versions ((v, n) ∷ m) = ground (arith, kernel_posted-versions m)

  kernel_posted-families : (m : GoMap GoString ℕ) → kernel_posted (publish_families {F = F} m) ≡ 0
  unfolding publish_families kernel_posted kernel_posts
  kernel_posted-families [] = refl
  kernel_posted-families ((f, n) ∷ m) = ground (arith, kernel_posted-families m)

  pub kernel_posted-publish :
      (sort : (Kv → Kv → Bool) → List Kv → List Kv) (asn_top_n : ℕ) (totals : GoMap ℕ ℕ)
      (snap : WorkerCounters)
      → kernel_posted (publish sort {F = F} asn_top_n totals snap) ≡ 0
  unfolding publish
  kernel_posted-publish sort asn_top_n totals snap =
      rw
        (
          kernel_posted-append,
          kernel_posted-append,
          kernel_posted-append,
          kernel_posted-requests snap.responses snap.requests,
          kernel_posted-asns (top_n_asns sort totals asn_top_n) snap.asn_requests,
          kernel_posted-versions snap.version_requests,
          kernel_posted-families snap.family_requests,
        )
        refl

  pub kernel_posted-gauges :
      (n : ℕ) (x : F) → kernel_posted (clients_active n ∷ clients_unique_daily x ∷ []) ≡ 0
  unfolding kernel_posted kernel_posts
  kernel_posted-gauges n x = refl

  -- what a flush makes of a reading, before the readings `rs`
  pub read_drops_lem :
      (reading : Option ℕ) (last : ℕ) (rs : List ℕ)
      → (next : ℕ) × ((read_drops {F = F} reading (some last)).0 ≡ some next)
        × (last_of next rs ≡ last_of last (and_then reading rs))
        × (kernel_posted (read_drops {F = F} reading (some last)).1 + rises next rs
            ≡ rises last (and_then reading rs))
  unfolding read_drops kernel_posted kernel_posts and_then rises last_of
  read_drops_lem none last rs = (last, refl, refl, omega arith)
  read_drops_lem (some cur) last rs = (cur, refl, refl, ground arith)

pub rises-bound : (last : ℕ) (rs : List ℕ) → last_of last rs ≤ last + rises last rs
unfolding rises last_of
rises-bound last [] = omega arith
rises-bound last (cur ∷ rs) = omega (arith, rises-bound cur rs)
