-- ===== src/Aggregate/Threads/Alone.antt =====
-- Runs of one goroutine of exporter/internal/aggregate/aggregate.go that no other one interrupts.
use ntp_server.Base.{
  ℕ, ◌+◌, ◌<◌, ◌≡◌, refl, ap, Bool, some, List, [], ◌∷◌, ◌++◌, arith, length, map, true, false, set,
  get_elem?, length-append, if◌then◌else◌, ltb, ok, string_eq,
}
use mathlib.Core.List.{foldl, append_assoc}
use ntp_server.Hll.{Floats}
use ntp_server.Aggregate.{Collector, Event}
use ntp_server.Aggregate.Asn.{Kv}
use ntp_server.Aggregate.Threads.{Goroutine, idle, next_of, step}

module _ {ℓ} {A : Type ℓ} where
  pub get_elem?-middle :
      (xs : List A) (y : A) (ys : List A) → get_elem? (xs ++ (y ∷ ys)) (length xs) ≡ some y
  get_elem?-middle [] y ys = refl
  get_elem?-middle (x ∷ xs) y ys = get_elem?-middle xs y ys

  pub set-middle :
      (xs : List A) (y z : A) (ys : List A) → set (xs ++ (y ∷ ys)) (length xs) z ≡ xs ++ (z ∷ ys)
  set-middle [] y z ys = refl
  set-middle (x ∷ xs) y z ys = ap (◌∷◌ x) (set-middle xs y z ys)

pub if-same {ℓ} : {A : Type ℓ} (b : Bool) {x : A} → (if b then x else x) ≡ x
if-same true = refl
if-same false = refl

module _ {F : Type 0} (sha1 : List ℕ → List ℕ) (fl : Floats F)
    (sort : (Kv → Kv → Bool) → List Kv → List Kv) where
  -- `Alone g c d es`: with no other goroutine in between, `g` turns `c` into `d` and makes the
  -- calls `es` on the metrics.
  pub data Alone : Goroutine → Collector → Collector → List (Event F) → Type 0 where
    stops : {c : Collector} → Alone idle c c []
    goes :
        {g g' : Goroutine} {c c' d : Collector} {es ds : List (Event F)}
        → step sha1 fl sort g c ≡ ok (g', c', es)
        → Alone g' c' d ds
        → Alone g c d (es ++ ds)

  -- A loop over the slice that `put` puts into the collector: it changes each element by `f`, and
  -- its local variables by `acc`; at its end it makes the calls `out`.
  module _ {X S : Type 0} (put : List X → Collector) (f : X → X) (acc : S → X → S)
      (again : S → ℕ → Goroutine) (done : S → Goroutine) (out : S → List (Event F))
      (move : (xs : List X) (i : ℕ) (y : X) (s : S)
        → get_elem? xs i ≡ some y
        → step sha1 fl sort (again s i) (put xs)
          ≡ ok (
            next_of i (length xs) (again (acc s y)) (done (acc s y)),
            put (set xs i (f y)),
            if ltb (i + 1) (length xs) then [] else out (acc s y),
          )) where
    Alone-loop :
        (xs : List X) (y : X) (ys : List X) (s : S) {d : Collector} {es : List (Event F)}
        → Alone (done (foldl acc s (y ∷ ys))) (put (xs ++ map f (y ∷ ys))) d es
        → Alone (again s (length xs)) (put (xs ++ (y ∷ ys))) d (out (foldl acc s (y ∷ ys)) ++ es)
    Alone-loop xs y [] s a =
        let e : ltb (length xs + 1) (length (xs ++ (y ∷ []))) ≡ false =
          ground (arith, length-append xs (y ∷ [])) in
        let run = move (xs ++ (y ∷ [])) (length xs) y s (get_elem?-middle xs y []) in
        goes (rw (e, set-middle xs y (f y) []) at run) a
    Alone-loop xs y (z ∷ ys) s {d} {es} a =
        let e : ltb (length xs + 1) (length (xs ++ (y ∷ z ∷ ys))) ≡ true =
          ground (arith, length-append xs (y ∷ z ∷ ys)) in
        let run = move (xs ++ (y ∷ z ∷ ys)) (length xs) y s (get_elem?-middle xs y (z ∷ ys)) in
        let l : length (xs ++ (f y ∷ [])) ≡ length xs + 1 =
          omega (arith, length-append xs (f y ∷ [])) in
        let rest =
          Alone-loop (xs ++ (f y ∷ [])) z ys (acc s y) {d = d} {es = es}
            (rw (append_assoc xs (f y ∷ []) (map f (z ∷ ys))) a) in
        goes (rw (e, set-middle xs y (f y) (z ∷ ys)) at run)
          (rw (l, append_assoc xs (f y ∷ []) (z ∷ ys)) at rest)

    -- the whole loop
    pub Alone-whole :
        (xs : List X) (s : S) {d : Collector} {es : List (Event F)}
        → 0 < length xs
        → Alone (done (foldl acc s xs)) (put (map f xs)) d es
        → Alone (again s 0) (put xs) d (out (foldl acc s xs) ++ es)
    Alone-whole [] s h a = absurd (omega arith)
    Alone-whole (y ∷ ys) s h a = Alone-loop [] y ys s a

  pub Alone-append :
      {g : Goroutine} {c d : Collector} {es ds : List (Event F)}
      → es ≡ ds
      → Alone g c d es
      → Alone g c d ds
  Alone-append e a = rw (← e) a
