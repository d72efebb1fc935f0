-- ===== src/Capture/Ticks.antt =====
-- exporter/cmd/exporter/main.go: `flushForever`, which flushes the collector at every tick and
-- reads the kernel's drops of the manager of that time, while the workers call `HandleFrame`.
use ntp_server.Base.{
  ℕ, ◌+◌, ◌≤◌, ◌<◌, ◌≡◌, ◌∙◌, refl, ap, Bool, Option, none, some, List, [], ◌∷◌, ◌++◌, arith, All,
  Run, ok, ◌>>=◌, Returns,
}
use ntp_server.Hll.{Floats}
use ntp_server.Aggregate.{Collector, Event}
use ntp_server.Aggregate.Asn.{Kv}
use ntp_server.Aggregate.Flush.Valid.{flush_lem}
use ntp_server.Aggregate.Flush.Drops.{
  and_then, rises, last_of, kernel_posted, kernel_posted-append, kernel_posted-publish,
  kernel_posted-gauges, read_drops_lem, rises-bound,
}
use ntp_server.Base.Order.{Sorts}
use ntp_server.Aggregate.Handle.{Frame, Reading}
use ntp_server.Aggregate.Latency.{handle_all}
use ntp_server.Aggregate.Keeps.{IsValidOf}
use ntp_server.Aggregate.Invariant.{handle_frame-IsValid}
use ntp_server.Aggregate.Flush.{FlushReading, flush, read_drops}
use ntp_server.Capture.Sockets.{Manager}
use ntp_server.Capture.Sockets

-- What happens up to a tick and at it: the calls of `HandleFrame`, `mgrPtr`, the statistics of the
-- sockets, and the clocks of the flush.
pub record Tick : Type 0 where
  pub frames : List (Reading × Frame)
  pub manager : Option Manager
  pub stats : ℕ → Option ℕ
  pub clock : ℕ
  pub wall : ℕ
  pub wall_later : ℕ

-- `readDrops()`, none if no manager runs
unfoldable pub drops_at : Tick → Option ℕ
drops_at t = elim t.manager [ none ↦ none | some m ↦ some (Sockets.kernel_drops t.stats m) ]

abbrev pub reading_at : Tick → Option ℕ → FlushReading
reading_at t last = record {
  drops = drops_at t;
  last_drops = last;
  clock = t.clock;
  wall = t.wall;
  wall_later = t.wall_later;
}

-- the readings of the kernel's drops, at the ticks that find a manager
unfoldable pub readings : List Tick → List ℕ
readings [] = []
readings (t ∷ ts) = and_then (drops_at t) (readings ts)

abbrev pub AreFrames : ℕ → Tick → Type 0
AreFrames n t = All (λ (p : Reading × Frame). p.1.worker < n) t.frames

module _ (F : Type 0) (sha1 : List ℕ → List ℕ) (n : ℕ) where
  handle_all-IsValid :
      (fs : List (Reading × Frame)) {c : Collector}
      → IsValidOf n c
      → All (λ (p : Reading × Frame). p.1.worker < n) fs
      → Returns (handle_all F sha1 n fs c) (λ u. IsValidOf n u.0)
  unfolding handle_all
  handle_all-IsValid [] {c} v all = ((c, []), refl, v)
  handle_all-IsValid ((r, f) ∷ fs) v all =
      let (u, run, v') = handle_frame-IsValid F sha1 r f v all.0 in
      let (w, later, done) = handle_all-IsValid fs v' all.1 in
      ((w.0, u.1 ++ w.1), rw (run, later), done)

module _ (F : Type 0) (sha1 : List ℕ → List ℕ) (n : ℕ) (fl : Floats F)
    (sort : (Kv → Kv → Bool) → List Kv → List Kv) (sorts : Sorts sort) where
  -- `flushForever`, with `*lastDrops` and the calls on the metrics that its flushes make
  unfoldable pub flush_forever :
      List Tick → Option ℕ → Collector → Run (Collector × Option ℕ × List (Event F))
  flush_forever [] last c = ok (c, last, [])
  flush_forever (t ∷ ts) last c = do
    (c', others) ← handle_all F sha1 n t.frames c
    (c'', next, events) ← flush sort fl (reading_at t last) c'
    (done, end, later) ← flush_forever ts next c''
    ok (done, end, events ++ later)

  flush-kernel :
      (t : Tick) (last : ℕ) {c : Collector}
      → IsValidOf n c
      → Returns (flush sort fl (reading_at t (some last)) c) λ u.
        IsValidOf n u.0
        × (u.1 ≡ (read_drops {F = F} (drops_at t) (some last)).0)
        × (kernel_posted u.2 ≡ kernel_posted (read_drops {F = F} (drops_at t) (some last)).1)
  flush-kernel t last {c} v =
      let (u, run, (w, e, (h, merged, (events, same)))) =
        flush_lem sort sorts fl (reading_at t (some last)) v in
      (
        u,
        run,
        (
          w,
          same,
          rw
              (
                events,
                kernel_posted-append,
                kernel_posted-append,
                kernel_posted-publish F sort c.asn_top_n _ _,
                kernel_posted-gauges F,
              )
              (omega arith),
        ),
      )

  -- the outcome of the ticks
  abbrev pub Published : ℕ → List ℕ → Collector × Option ℕ × List (Event F) → Type 0
  Published last rs u =
      IsValidOf n u.0 × (u.1 ≡ some (last_of last rs)) × (kernel_posted u.2 ≡ rises last rs)

  flush_forever_lem :
      (ts : List Tick) (last : ℕ) {c : Collector}
      → IsValidOf n c
      → All (AreFrames n) ts
      → Returns (flush_forever ts (some last) c) (Published last (readings ts))
  unfolding flush_forever readings rises last_of kernel_posted
  flush_forever_lem [] last {c} v all = (_, refl, (v, refl, refl))
  flush_forever_lem (t ∷ ts) last {c} v all =
      let (a, ran, w) = handle_all-IsValid F sha1 n t.frames v all.0 in
      let (u, run, (w', next, sum)) = flush-kernel t last w in
      let (at, moved, ended, more) = read_drops_lem F (drops_at t) last (readings ts) in
      let e : u.1 ≡ some at = next ∙ moved in
      let (z, later, (w'', last', total)) = flush_forever_lem ts at w' all.1 in
      (
        (z.0, z.1, u.2 ++ z.2),
        rw (ran, run, e, later) refl,
        (w'', last' ∙ ap some ended, rw kernel_posted-append (omega (arith, sum, total, more))),
      )

  -- From any valid collector and last count, whatever frames are handled between the ticks, for
  -- workers that exist, and whatever managers come and go: no flush panics, the collector stays
  -- valid, `lastDrops` is the last reading of the kernel's drops, if one was taken, and the drops
  -- published are by how much the readings have risen, each against the one before it. So nothing
  -- is published for a reading that falls, and the last reading is at most the first count plus
  -- what is published.
  pub flush_forever-Published :
      (ts : List Tick) (last : ℕ) {c : Collector}
      → IsValidOf n c
      → All (AreFrames n) ts
      → Returns (flush_forever ts (some last) c) λ u.
        Published last (readings ts) u × (last_of last (readings ts) ≤ last + kernel_posted u.2)
  flush_forever-Published ts last v all =
      let (u, run, p) = flush_forever_lem ts last v all in
      (u, run, (p, rw p.2 (rises-bound last (readings ts))))
