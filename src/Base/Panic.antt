-- ===== src/Base/Panic.antt =====
-- A Go function that may panic: an index out of range, or an explicit `panic`.
use mathlib.Core.Path.{◌≡◌, refl}
use mathlib.Core.Logic.{◌≢◌, ◌⊎◌, inl, inr}
use mathlib.Core.Option.{Option, none, some}

pub data Run {ℓ} (A : Type ℓ) : Type ℓ where
  ok : A → Run A
  panic : Run A

infixl 5 ◌>>=◌
abbrev pub ◌>>=◌ {ℓ κ} : {S : Type ℓ} {T : Type κ} (r : Run S) (next : S → Run T) → Run T
ok s >>= next = next s
panic >>= next = panic

-- `xs[i]`, once the element is looked up
abbrev pub or_panic {ℓ} : {A : Type ℓ} → Option A → Run A
or_panic none = panic
or_panic (some a) = ok a

-- the run ends normally, in a value that satisfies `P`
abbrev pub Returns {ℓ κ} : {S : Type ℓ} (run : Run S) (Q : S → Type κ) → Type (ℓ ⊔ κ)
Returns {S} run Q = (s : S) × (run ≡ ok s) × Q s

pub Returns-bind {ℓ κ μ} :
    {A B : Type ℓ} {P : A → Type κ} {Q : B → Type μ} (r : Run A) (f : A → Run B)
    → Returns r P
    → ((a : A) → P a → Returns (f a) Q)
    → Returns (r >>= f) Q
Returns-bind r f (a, e, p) k = rw e (k a p)

pub Run-cases {ℓ} : {A : Type ℓ} (r : Run A) → (r ≡ panic) ⊎ ((a : A) × (r ≡ ok a))
Run-cases panic = inl refl
Run-cases (ok a) = inr (a, refl)

pub panic-ne-ok {ℓ} : {A : Type ℓ} {a : A} → panic ≢ ok a
panic-ne-ok h = cc
