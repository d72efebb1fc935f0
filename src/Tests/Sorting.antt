-- ===== src/Tests/Sorting.antt =====
-- A sorting function that does what `sort.Slice` promises, for concrete runs.
use mathlib.Core.List.{Perm}
use mathlib.Core.List.Perm
use ntp_server.Base.{
  ◌≡◌, Bool, false, inl, inr, List, [], ◌∷◌, All, All-imp, if◌then◌else◌, Bool-cases,
}
use ntp_server.Base.Order.{IsWeakOrder, IsSorted, Sorts}

module _ {A : Type 0} where
  unfoldable pub place : (A → A → Bool) → A → List A → List A
  place less x [] = x ∷ []
  place less x (y ∷ ys) = let rest = place less x ys in if less y x then y ∷ rest else x ∷ y ∷ ys

  unfoldable pub insertion_sort : (A → A → Bool) → List A → List A
  insertion_sort less [] = []
  insertion_sort less (x ∷ xs) = place less x (insertion_sort less xs)

  place-perm : (less : A → A → Bool) (x : A) (ys : List A) → Perm (place less x ys) (x ∷ ys)
  unfolding place
  place-perm less x [] = Perm.rfl
  place-perm less x (y ∷ ys) = elim (Bool-cases (less y x)) [
    | inl t ↦ rw t (Perm.trans (Perm.cons y (place-perm less x ys)) (Perm.swap x y ys))
    | inr f ↦ rw f Perm.rfl
  ]

  insertion_sort-perm : (less : A → A → Bool) (xs : List A) → Perm (insertion_sort less xs) xs
  unfolding insertion_sort
  insertion_sort-perm less [] = Perm.rfl
  insertion_sort-perm less (x ∷ xs) =
      Perm.trans (place-perm less x (insertion_sort less xs))
        (Perm.cons x (insertion_sort-perm less xs))

  All-place :
      (P : A → Type 0) (less : A → A → Bool) (x : A) (ys : List A)
      → P x
      → All P ys
      → All P (place less x ys)
  unfolding place
  All-place P less x [] p h = (p, tt)
  All-place P less x (y ∷ ys) p h = elim (Bool-cases (less y x)) [
    | inl t ↦ rw t (h.0, All-place P less x ys p h.1)
    | inr f ↦ rw f (p, h)
  ]

  place-IsSorted :
      (less : A → A → Bool)
      → IsWeakOrder less
      → (x : A) (ys : List A) → IsSorted less ys
      → IsSorted less (place less x ys)
  unfolding place
  place-IsSorted less w x [] s = (tt, tt)
  place-IsSorted less w x (y ∷ ys) s = elim (Bool-cases (less y x)) [
    | inl t ↦ rw t (
      All-place (λ z. less z y ≡ false) less x ys (w.asym y x t) s.0,
      place-IsSorted less w x ys s.1,
    )
    | inr f ↦ rw f (
      (
        f,
        All-imp (λ z. less z y ≡ false) (λ z. less z x ≡ false) ys (λ z h. w.cotrans z y x h f) s.0,
      ),
      s,
    )
  ]

  insertion_sort-IsSorted :
      (less : A → A → Bool) (xs : List A)
      → IsWeakOrder less
      → IsSorted less (insertion_sort less xs)
  unfolding insertion_sort
  insertion_sort-IsSorted less [] w = tt
  insertion_sort-IsSorted less (x ∷ xs) w =
      place-IsSorted less w x (insertion_sort less xs) (insertion_sort-IsSorted less xs w)

  pub insertion_sort-Sorts : Sorts insertion_sort
  insertion_sort-Sorts = record { perm = insertion_sort-perm; sorted = insertion_sort-IsSorted }
