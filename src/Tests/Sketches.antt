-- ===== src/Tests/Sketches.antt =====
-- Small sketches. The hash of these runs gives back its key, so keys are chosen for their
-- registers.
use mathlib.Core.Logic.Or
use mathlib.Core.List.{Mem, Mem-prop, mem-cons, mem-cons_self, mem-cons_of_mem}
use ntp_server.Base.{ℕ, ◌≡◌, refl, List, [], ◌∷◌, ◌++◌, arith, ok, panic, ◌>>=◌, Returns}
use ntp_server.Hll.{new, merge}
use ntp_server.Hll.Sets.{sketch, sketch_of_set, merge-sketch}

-- a hash for the runs
abbrev identity : List ℕ → List ℕ
identity key = key

abbrev low : List ℕ
low = 0x10 ∷ 0 ∷ 0 ∷ 0 ∷ 0 ∷ 0 ∷ 0 ∷ 1 ∷ []

abbrev high : List ℕ
high = 0xF8 ∷ 0 ∷ 0 ∷ 0 ∷ 0 ∷ 0 ∷ 0 ∷ 0 ∷ []

there : (k : List ℕ) → Mem k (low ∷ high ∷ low ∷ []) → Mem k (high ∷ low ∷ [])
there k m =
    Or.elim Mem-prop (mem-cons.0 m) (λ e. rw e (mem-cons_of_mem high mem-cons_self)) λ later. later

back : (k : List ℕ) → Mem k (high ∷ low ∷ []) → Mem k (low ∷ high ∷ low ∷ [])
back k m = mem-cons_of_mem low m

sketch_of_set_example :
    Returns
      (sketch identity 4 (low ∷ high ∷ low ∷ []))
      λ u. sketch identity 4 (high ∷ low ∷ []) ≡ ok u
sketch_of_set_example =
    sketch_of_set identity 4 (low ∷ high ∷ low ∷ []) (high ∷ low ∷ []) (omega arith) there back

merge-sketch_example :
    Returns (sketch identity 4 ((low ∷ []) ++ (high ∷ []))) λ u.
      (do a ← sketch identity 4 (low ∷ []); b ← sketch identity 4 (high ∷ []); merge a b) ≡ ok u
merge-sketch_example = merge-sketch identity 4 (low ∷ []) (high ∷ []) (omega arith)

-- outside 4 .. 16 there is no sketch
new_run : new 17 ≡ panic
unfolding new
new_run = refl
