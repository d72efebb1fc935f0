-- ===== src/Base/Order.antt =====
-- What sorting and comparing code asks of a Boolean `less`.
use mathlib.Core.Path.{◌≡◌}
use mathlib.Core.Bool.{Bool, true, false}
use mathlib.Core.List.{List, [], ◌∷◌, Perm}
use ntp_server.Base.Lists.{All}

-- A strict weak order: what `sort.Slice` asks of its `less`.
pub record IsWeakOrder {ℓ} {A : Type ℓ} (less : A → A → Bool) : Type ℓ where
  pub asym : (a b : A) → less a b ≡ true → less b a ≡ false
  pub cotrans : (a b c : A) → less a b ≡ false → less b c ≡ false → less a c ≡ false

-- no element is less than an earlier one
abbrev pub IsSorted {ℓ} : {A : Type ℓ} → (A → A → Bool) → List A → Type 0
IsSorted less [] = Unit
IsSorted less (x ∷ xs) = All (λ y. less y x ≡ false) xs × IsSorted less xs

-- What `sort.Slice` promises: the same elements, sorted if `less` is a weak order.
pub record Sorts {ℓ} {A : Type ℓ} (sort : (A → A → Bool) → List A → List A) : Type ℓ where
  pub perm : (less : A → A → Bool) (xs : List A) → Perm (sort less xs) xs
  pub sorted : (less : A → A → Bool) (xs : List A) → IsWeakOrder less → IsSorted less (sort less xs)
