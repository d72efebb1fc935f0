-- ===== src/Frame/Access.antt =====
-- The outcome of a parser that returns `(value, ok)` and that could index a slice out of range.
use ntp_server.Base.{
  ℕ, zero, suc, ◌-◌, ◌≤◌, ◌<◌, ◌≡◌, refl, Bool, true, false, ◌&&◌, Option, none, some, List, [],
  ◌∷◌, arith, leb, le→leb, length, take, drop, get_elem?, length-take, length-drop, if◌then◌else◌,
}

-- `(value, true)`, `(Parsed{}, false)`, or a run-time panic
pub data Outcome {ℓ} (A : Type ℓ) : Type ℓ where
  accept : A → Outcome A
  reject : Outcome A
  fault : Outcome A

infixl 5 ◌>>=◌ ◌>>◌
abbrev pub ◌>>=◌ {ℓ κ} : {A : Type ℓ} {B : Type κ} → Outcome A → (A → Outcome B) → Outcome B
accept a >>= f = f a
reject >>= f = reject
fault >>= f = fault

abbrev pub ◌>>◌ {ℓ} : {B : Type ℓ} → Outcome (Unit {0}) → Outcome B → Outcome B
m >> k = m >>= λ _. k

-- `if test { return Parsed{}, false }`
abbrev pub reject_if : Bool → Outcome (Unit {0})
reject_if true = reject
reject_if false = accept tt

abbrev or_fault {ℓ} : {A : Type ℓ} → Option A → Outcome A
or_fault none = fault
or_fault (some a) = accept a

-- `frame[i]`
unfoldable pub at : List ℕ → ℕ → Outcome ℕ
at frame i = or_fault (get_elem? frame i)

-- `frame[a:b]`, copied
unfoldable pub slice : List ℕ → ℕ → ℕ → Outcome (List ℕ)
slice frame a b =
    if leb a b && leb b (length frame) then accept (take (b - a) (drop a frame)) else fault

-- `frame[a:]`
unfoldable pub slice_from : List ℕ → ℕ → Outcome (List ℕ)
slice_from frame a = if leb a (length frame) then accept (drop a frame) else fault

-- the run does not panic, and what it accepts satisfies `P`
abbrev pub Ensures {ℓ} : {A : Type ℓ} → (A → Type 0) → Outcome A → Type 0
Ensures P (accept a) = P a
Ensures P reject = Unit
Ensures P fault = ⊥

-- `frame[i]` and `frame[a:b]` in range, as plain values
abbrev pub byte : List ℕ → ℕ → ℕ
byte [] i = 0
byte (x ∷ xs) zero = x
byte (x ∷ xs) (suc i) = byte xs i

abbrev pub sub : List ℕ → ℕ → ℕ → List ℕ
sub frame a b = take (b - a) (drop a frame)

pub at-byte : (frame : List ℕ) (i : ℕ) → i < length frame → at frame i ≡ accept (byte frame i)
unfolding at
at-byte [] i h = absurd (omega arith)
at-byte (x ∷ xs) zero h = refl
at-byte (x ∷ xs) (suc i) h = at-byte xs i (omega arith)

pub slice-sub :
    (frame : List ℕ) (a b : ℕ) → a ≤ b → b ≤ length frame → slice frame a b ≡ accept (sub frame a b)
unfolding slice
slice-sub frame a b h k = rw (le→leb a b h, le→leb b (length frame) k)

pub length-sub : (frame : List ℕ) (a b : ℕ) → b ≤ length frame → length (sub frame a b) ≡ b - a
length-sub frame a b k =
    omega (arith, length-take {0} (b - a) (drop a frame), length-drop {0} a frame)

pub slice_from-drop :
    (frame : List ℕ) (a : ℕ) → a ≤ length frame → slice_from frame a ≡ accept (drop a frame)
unfolding slice_from
slice_from-drop frame a h = rw (le→leb a (length frame) h)

pub Ensures-bind {ℓ κ} :
    {A : Type ℓ} {B : Type κ} (P : A → Type 0) (Q : B → Type 0) (o : Outcome A) (f : A → Outcome B)
    → Ensures P o
    → ((a : A) → P a → Ensures Q (f a))
    → Ensures Q (o >>= f)
Ensures-bind P Q (accept a) f p k = k a p
Ensures-bind P Q reject f p k = tt
Ensures-bind P Q fault f p k = absurd p
