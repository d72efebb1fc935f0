-- ===== src/Aggregate/Threads/Steps.antt =====
-- One step of a goroutine of exporter/internal/aggregate/aggregate.go: it does not panic, and
-- counts or publishes what it holds.
use ntp_server.Base.{ℕ, refl, inr, Bool, List, [], arith, string_eq}
use ntp_server.Hll.{Floats}
use ntp_server.Base.Order.{Sorts}
use ntp_server.Aggregate.{Collector}
use ntp_server.Aggregate.Asn.{Kv}
use ntp_server.Aggregate.Flush.Ledger.{posted}
use ntp_server.Aggregate.Threads.{
  Goroutine, idle, entered, counting, touching, bucketing, remembering, pairing, added, sweeping,
  merging, totalling, evicting, expiring, rotating, step,
}
use ntp_server.Aggregate.Threads.Settled.{IsSettled}
use ntp_server.Aggregate.Threads.Places.{IsPlaced}
use ntp_server.Aggregate.Threads.Kept.{Goes}
use ntp_server.Aggregate.Threads.StepsFrame.{
  counting-Keeps, entered-Keeps, added-Keeps, sweeping-Keeps, touching-Keeps, bucketing-Keeps,
  remembering-Keeps, pairing-Keeps,
}
use ntp_server.Aggregate.Threads.StepsFlush.{
  merging-Keeps, totalling-Keeps, evicting-Keeps, expiring-Keeps, rotating-Keeps,
}

module _ {F : Type 0} (sha1 : List ℕ → List ℕ) (fl : Floats F)
    (sort : (Kv → Kv → Bool) → List Kv → List Kv) (sorts : Sorts sort) (n : ℕ) (c : Collector)
    (w : IsSettled n c) where
  pub step-Keeps : (g : Goroutine) → IsPlaced n g → Goes sha1 fl sort n c w g
  unfolding step posted
  step-Keeps idle p = ((idle, c, []), refl, (tt, w, λ s. omega arith, inr (inr (refl, λ h. h))))
  step-Keeps (entered r f) p = entered-Keeps sha1 fl sort sorts n c w r f p
  step-Keeps (added r f k) p = added-Keeps sha1 fl sort sorts n c w r f k p
  step-Keeps (sweeping r f i) p = sweeping-Keeps sha1 fl sort sorts n c w r f i p
  step-Keeps (counting r f) p = counting-Keeps sha1 fl sort sorts n c w r f p
  step-Keeps (touching r f) p = touching-Keeps sha1 fl sort sorts n c w r f p
  step-Keeps (bucketing r f) p = bucketing-Keeps sha1 fl sort sorts n c w r f p
  step-Keeps (remembering r f) p = remembering-Keeps sha1 fl sort sorts n c w r f p
  step-Keeps (pairing r f) p = pairing-Keeps sha1 fl sort sorts n c w r f p
  step-Keeps (merging r i snap) p = merging-Keeps sha1 fl sort sorts n c w r i snap p
  step-Keeps (totalling r snap) p = totalling-Keeps sha1 fl sort sorts n c w r snap p
  step-Keeps (evicting r i active) p = evicting-Keeps sha1 fl sort sorts n c w r i active p
  step-Keeps (expiring r i) p = expiring-Keeps sha1 fl sort sorts n c w r i p
  step-Keeps (rotating r) p = rotating-Keeps sha1 fl sort sorts n c w r p
