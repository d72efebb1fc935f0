-- ===== src/Aggregate/Threads/Kept.antt =====
-- What one step of a goroutine of exporter/internal/aggregate/aggregate.go keeps.
use ntp_server.Base.{
  ℕ, ◌+◌, ◌<◌, ◌≡◌, ◌&&◌, ◌⊎◌, refl, inl, inr, Bool, false, List, [], ◌∷◌, arith, if◌then◌else◌,
  leb, nat_eqb, Bool-cases, Returns, string_eq,
}
use ntp_server.Hll.{Floats}
use ntp_server.Aggregate.{Collector, Event, clients_active, clients_unique_daily}
use ntp_server.Aggregate.Asn.{Kv}
use ntp_server.Aggregate.Handle.{Frame, Reading}
use ntp_server.Aggregate.Flush.Ledger.{Series, posts, posted, waiting}
use ntp_server.Aggregate.Threads.{Goroutine, counting, added, step}
use ntp_server.Aggregate.Threads.Settled.{IsSettled}
use ntp_server.Aggregate.Threads.Places.{IsPlaced, held, Due}

-- Either no sweep is due, or this goroutine is about to win the compare-and-swap, or it left the
-- number of frames alone and was not about to.
abbrev pub Watched : ℕ → Goroutine → ℕ → Goroutine → Type 0
Watched k g k' g' = (k' < 1024) ⊎ (Due k' g' ⊎ ((k' ≡ k) × ¬ Due k g))

-- a lost compare-and-swap, or none
pub cas-Watched :
    (r : Reading) (f : Frame) (frames k : ℕ)
    → (leb 1024 k && nat_eqb frames k) ≡ false
    → Watched frames (added r f k) frames (counting r f)
cas-Watched r f frames k loses = elim (Bool-cases (leb 1024 frames)) [
  | inl due ↦ inr (inr (refl, λ e. ground arith))
  | inr early ↦ inl (ground arith)
]

module _ {F : Type 0} where
  -- what a step makes of the collector and of what the goroutine holds
  abbrev pub Kept : ℕ → Goroutine → Collector → Goroutine × Collector × List (Event F) → Type 0
  Kept n g c u =
      IsPlaced n u.0
      × IsSettled n u.1
      × ((s : Series)
          → posted s u.2 + (waiting s u.1.workers + held s u.0) ≡ waiting s c.workers + held s g)
      × Watched c.frames_since_sweep g u.1.frames_since_sweep u.0

module _ (F : Type 0) where
  pub posted-none : (s : Series) → posted {F = F} s [] ≡ 0
  unfolding posted
  posted-none s = refl

  pub posted-last :
      (s : Series) (more : Bool) (total : ℕ)
      → posted {F = F} s (if more then [] else clients_active total ∷ []) ≡ 0
  unfolding posted posts
  posted-last s more total = ground arith

  pub posted-gauge : (s : Series) (x : F) → posted s (clients_unique_daily x ∷ []) ≡ 0
  unfolding posted posts
  posted-gauge s x = ground arith

module _ {F : Type 0} (sha1 : List ℕ → List ℕ) (fl : Floats F)
    (sort : (Kv → Kv → Bool) → List Kv → List Kv) (n : ℕ) (c : Collector) (w : IsSettled n c) where
  abbrev pub Goes : Goroutine → Type 0
  Goes g = Returns (step sha1 fl sort g c) (Kept n g c)
