-- ===== src/Metrics/Keys.antt =====
-- The labels that the workers' maps of exporter/internal/aggregate/aggregate.go have, for frames as
-- `ProcessFrame` hands them over.
use ntp_server.Base.{
  ℕ, ◌+◌, ◌≡◌, ◌⊎◌, refl, inl, inr, Bool, List, [], ◌∷◌, All, All-get, All-set, get_elem?, set,
  some, GoString, bytes, ◌==◌, string_eq, Bool-cases, if◌then◌else◌, Equality, arith, map,
}
use ntp_server.Base.GoMap.{GoMap, insert}
use ntp_server.Base.Counters.{bump, merge_into, value}
use ntp_server.Frame.{request, response, ipv4, ipv6}
use ntp_server.Frame.Safety.{IsVersion}
use ntp_server.Aggregate.{WorkerCounters, new_worker_counters}
use ntp_server.Aggregate.Handle.{Frame, Reading, version_label, count_request, count_response}
use ntp_server.Aggregate.Flush.{merge_worker, snapshot}
use ntp_server.Aggregate.Flush.Steps.{counted}

abbrev pub IsDirection : GoString → Type 0
IsDirection d = (d ≡ request) ⊎ (d ≡ response)

abbrev pub IsFamily : GoString → Type 0
IsFamily a = (a ≡ ipv4) ⊎ (a ≡ ipv6)

-- a frame with one of the two directions, one of the two families, and a version, if any
pub record IsLabelled (f : Frame) : Type 0 where
  pub direction : IsDirection f.direction
  pub family : IsFamily f.family
  pub version : (f.version ≡ []) ⊎ IsVersion f.version

module _ {ℓ κ} {K : Type ℓ} ⦃e : Equality K⦄ (P : K → Type κ) where
  abbrev pub Keys : GoMap K ℕ → Type κ
  Keys m = All (λ x. P x.0) m

  insert-Keys : (k : K) (n : ℕ) (m : GoMap K ℕ) → P k → Keys m → Keys (insert k n m)
  unfolding insert
  insert-Keys k n [] p all = (p, tt)
  insert-Keys k n ((j, w) ∷ m) p all = elim (Bool-cases (j == k)) [
    | inl same ↦ rw (insert, same) (p, all.1)
    | inr apart ↦ rw (insert, apart) (all.0, insert-Keys k n m p all.1)
  ]

  pub bump-Keys : (k : K) (n : ℕ) (m : GoMap K ℕ) → P k → Keys m → Keys (bump k n m)
  unfolding bump
  bump-Keys k n m p all = insert-Keys k (value k m + n) m p all

  pub merge_into-Keys : (acc m : GoMap K ℕ) → Keys acc → Keys m → Keys (merge_into acc m)
  unfolding merge_into
  merge_into-Keys acc [] all all' = all
  merge_into-Keys acc ((k, v) ∷ m) all all' =
      merge_into-Keys (bump k v acc) m (bump-Keys k v acc all'.0 all) all'.1

-- the versions and the families of one worker
abbrev pub HasLabels : WorkerCounters → Type 0
HasLabels wc = Keys IsVersion wc.version_requests × Keys IsFamily wc.family_requests

version_label-IsVersion : (v : GoString) → (v ≡ []) ⊎ IsVersion v → IsVersion (version_label v)
unfolding version_label ntp_server.Base.list_eqb
version_label-IsVersion [] h = inr (inr (inr (inr refl)))
version_label-IsVersion (b ∷ bs) (inl e) = absurd cc
version_label-IsVersion (b ∷ bs) (inr h) = h

pub counted-HasLabels :
    (F : Type 0) (sha1 : List ℕ → List ℕ) (r : Reading) (f : Frame) (wc : WorkerCounters)
    → IsLabelled f
    → HasLabels wc
    → HasLabels (counted F sha1 r f wc)
unfolding count_request count_response
counted-HasLabels F sha1 r f wc l all = elim (Bool-cases (f.direction == request)) [
  | inl q ↦ rw q (
    bump-Keys IsVersion _ 1 wc.version_requests (version_label-IsVersion f.version l.version) all.0,
    bump-Keys IsFamily f.family 1 wc.family_requests l.family all.1,
  )
  | inr a ↦ rw a all
]

pub snapshot-HasLabels :
    (acc : WorkerCounters) (workers : List WorkerCounters)
    → HasLabels acc
    → All HasLabels workers
    → HasLabels (snapshot acc workers)
unfolding snapshot merge_worker
snapshot-HasLabels acc [] all all' = all
snapshot-HasLabels acc (wc ∷ workers) all all' =
    snapshot-HasLabels (merge_worker acc wc) workers
      (
        merge_into-Keys IsVersion acc.version_requests wc.version_requests all.0 all'.0.0,
        merge_into-Keys IsFamily acc.family_requests wc.family_requests all.1 all'.0.1,
      )
      all'.1

pub reset-HasLabels :
    (workers : List WorkerCounters) → All HasLabels (map (λ wc. new_worker_counters) workers)
reset-HasLabels [] = tt
reset-HasLabels (wc ∷ workers) = ((tt, tt), reset-HasLabels workers)
