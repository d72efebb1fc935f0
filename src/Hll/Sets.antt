-- ===== src/Hll/Sets.antt =====
-- What a sketch knows: which set of keys was added to it, and nothing of their order or number.
use mathlib.Core.List.{Mem, mem-cons, not-mem-nil, mem-cons_self, mem-cons_of_mem}
use mathlib.Core.Logic.Or
use native.Mathlib.Bridge.{le_prop}
use ntp_server.Base.{
  ℕ, ◌^◌, ◌≤◌, max, ◌≡◌, refl, ap, sym, ◌∙◌, List, [], ◌∷◌, ◌++◌, arith, length, nat_eqb,
  if◌then◌else◌, GoString, Run, ok, ◌>>=◌, Returns,
}
use ntp_server.Hll.{HyperLogLog, new, add, merge}
use ntp_server.Hll.Registers.{zip_max, register, register-raise, registers_ext}
use ntp_server.Hll.Bounds.{
  IsSketch, slot, rank, slot-lt_length, add-raise, raise-IsSketch, new-IsSketch, merge-zip_max,
  zip_max-IsSketch, register-merge,
}

module _ (sha1 : List ℕ → List ℕ) where
  -- `Add` for one key after another
  unfoldable pub add_all : HyperLogLog → List GoString → Run HyperLogLog
  add_all h [] = ok h
  add_all h (k ∷ ks) = do g ← add sha1 h k; add_all g ks

  -- a new sketch with keys added
  unfoldable pub sketch : ℕ → List GoString → Run HyperLogLog
  sketch p ks = do h ← new p; add_all h ks

  -- the highest rank among the keys of register `i`
  max_at : ℕ → ℕ → List GoString → ℕ
  max_at bits i [] = 0
  max_at bits i (k ∷ ks) =
      if nat_eqb (slot sha1 bits k) i
      then max (rank sha1 bits k) (max_at bits i ks)
      else max_at bits i ks

  max_at-append :
      (bits i : ℕ) (ks js : List GoString)
      → max_at bits i (ks ++ js) ≡ max (max_at bits i ks) (max_at bits i js)
  unfolding max_at
  max_at-append bits i [] js = omega arith
  max_at-append bits i (k ∷ ks) js = ground (arith, max_at-append bits i ks js)

  rank-le-max_at :
      (bits : ℕ) (k : GoString) (ks : List GoString)
      → Mem k ks
      → rank sha1 bits k ≤ max_at bits (slot sha1 bits k) ks
  unfolding max_at
  rank-le-max_at bits k [] m = absurd (not-mem-nil m)
  rank-le-max_at bits k (j ∷ ks) m =
      Or.elim le_prop (mem-cons.0 m) (λ e. rw e (ground arith))
        (λ later. ground (arith, rank-le-max_at bits k ks later))

  max_at-le :
      (bits i n : ℕ) (ks : List GoString)
      → ((k : GoString) → Mem k ks → slot sha1 bits k ≡ i → rank sha1 bits k ≤ n)
      → max_at bits i ks ≤ n
  unfolding max_at
  max_at-le bits i n [] h = omega arith
  max_at-le bits i n (k ∷ ks) h =
      let rest : max_at bits i ks ≤ n =
        max_at-le bits i n ks (λ j m e. h j (mem-cons_of_mem k m) e) in
      ground (arith, h k mem-cons_self)

  max_at_mono :
      (bits i : ℕ) (ks js : List GoString)
      → ((k : GoString) → Mem k ks → Mem k js)
      → max_at bits i ks ≤ max_at bits i js
  max_at_mono bits i ks js h =
      max_at-le bits i _ ks (λ k m e. rw e at (rank-le-max_at bits k js (h k m)))

  -- what adding keys to a sketch makes of it
  record Holds (h : HyperLogLog) (ks : List GoString) (g : HyperLogLog) : Type 0 where
    pub valid : IsSketch g
    pub p : g.p ≡ h.p
    pub m : g.m ≡ h.m
    pub bits : g.bits ≡ h.bits
    pub reads : (i : ℕ) → register g.registers i ≡ max (register h.registers i) (max_at h.bits i ks)

  add_all-Holds :
      (ks : List GoString) {h : HyperLogLog} → IsSketch h → Returns (add_all h ks) (Holds h ks)
  unfolding add_all max_at
  add_all-Holds [] {h} w =
      (h, refl, record { valid = w; p = refl; m = refl; bits = refl; reads = λ i. omega arith })
  add_all-Holds (k ∷ ks) {h} w =
      let s : ℕ = slot sha1 h.bits k in
      let r : ℕ = rank sha1 h.bits k in
      let (u, run, v) = add_all-Holds ks (raise-IsSketch sha1 w k) in
      (
        u,
        rw (add-raise sha1 w k) run,
        record {
          valid = v.valid;
          p = v.p;
          m = v.m;
          bits = v.bits;
          reads = λ i.
              ground (arith, v.reads i, register-raise s r i h.registers (slot-lt_length sha1 w k));
        },
      )

  new_of : {p : ℕ} → (4 ≤ p) × (p ≤ 16) → (h : HyperLogLog) × (new p ≡ ok h) × IsSketch h
  new_of {p} w = let (h, run, t) = new-IsSketch p w in (h, run, t.0)

  -- a sketch is determined by its precision and its registers
  HyperLogLog_ext :
      {g h : HyperLogLog}
      → IsSketch g
      → IsSketch h
      → g.p ≡ h.p
      → g.bits ≡ h.bits
      → ((i : ℕ) → register g.registers i ≡ register h.registers i)
      → g ≡ h
  HyperLogLog_ext {g} {h} w v e b r =
      let size : length g.registers ≡ length h.registers =
        w.size ∙ ap (λ (n : ℕ). 2 ^ n) e ∙ sym v.size in
      let same : g.m ≡ h.m = w.m ∙ ap (λ (n : ℕ). 2 ^ n) e ∙ sym v.m in
      cc (registers_ext g.registers h.registers size r)

  -- A sketch depends only on the set of the keys that were added: not on their order and not on
  -- how often each was added, whatever the hash. For every precision that `New` accepts nothing
  -- panics.
  pub sketch_of_set :
      (p : ℕ) (ks js : List GoString)
      → (4 ≤ p) × (p ≤ 16)
      → ((k : GoString) → Mem k ks → Mem k js)
      → ((k : GoString) → Mem k js → Mem k ks)
      → Returns (sketch p ks) (λ u. sketch p js ≡ ok u)
  unfolding sketch
  sketch_of_set p ks js range there back =
      let (h, run, w) = new_of range in
      let (a, ra, ta) = add_all-Holds ks w in
      let (b, rb, tb) = add_all-Holds js w in
      let same : b ≡ a =
        HyperLogLog_ext tb.valid ta.valid (tb.p ∙ sym ta.p) (tb.bits ∙ sym ta.bits) (λ i. omega (
          arith,
          ta.reads i,
          tb.reads i,
          max_at_mono h.bits i ks js there,
          max_at_mono h.bits i js ks back,
        )) in
      (a, rw run ra, rw (run, rb, same))

  -- Merging the sketches of two lists of keys gives the sketch of all the keys, and does not panic.
  pub merge-sketch :
      (p : ℕ) (ks js : List GoString)
      → (4 ≤ p) × (p ≤ 16)
      → Returns (sketch p (ks ++ js)) λ u. (do a ← sketch p ks; b ← sketch p js; merge a b) ≡ ok u
  unfolding sketch
  merge-sketch p ks js range =
      let (h, run, w) = new_of range in
      let (a, ra, ta) = add_all-Holds ks w in
      let (b, rb, tb) = add_all-Holds js w in
      let (u, ru, tu) = add_all-Holds (ks ++ js) w in
      let e : a.p ≡ b.p = ta.p ∙ sym tb.p in
      let same : record a { registers = zip_max a.registers b.registers } ≡ u =
        HyperLogLog_ext (zip_max-IsSketch ta.valid tb.valid e) tu.valid (ta.p ∙ sym tu.p)
          (ta.bits ∙ sym tu.bits)
          (λ i. omega (
            arith,
            register-merge ta.valid tb.valid e i,
            ta.reads i,
            tb.reads i,
            tu.reads i,
            max_at-append h.bits i ks js,
          )) in
      (u, rw run ru, rw (run, ra, rb, merge-zip_max ta.valid tb.valid e, same))
