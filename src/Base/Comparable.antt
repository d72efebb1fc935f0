-- ===== src/Base/Comparable.antt =====
-- Go's `==` on comparable types: an interface with an instance for each key type of the program.
use mathlib.Core.Path.{◌≡◌, refl, ap}
use mathlib.Core.Logic.{◌↔◌}
use mathlib.Core.Bool.{Bool, true, false, ◌&&◌}
use mathlib.Core.List.{List, [], ◌∷◌}
use Prim.Native.Nat.{ℕ}
use Prim.Native.Char.{code}
use Prim.Native.String.{String}
use native.Mathlib.Omega.{arith}
use ntp_server.Base.Tests.{nat_eqb, nat_eqb_iff}

-- `equal` decides whether two keys are the same value.
pub record Equality {ℓ} (K : Type ℓ) : Type ℓ where
  pub equal : (x y : K) → Bool
  pub equal_iff : (x y : K) → (equal x y ≡ true) ↔ (x ≡ y)

infix 50 ◌==◌
abbrev pub ◌==◌ {ℓ} : {K : Type ℓ} ⦃q : Equality K⦄ (x y : K) → Bool
◌==◌ ⦃q⦄ x y = q.equal x y

pub ==_refl {ℓ} : {K : Type ℓ} ⦃q : Equality K⦄ (x : K) → (x == x) ≡ true
==_refl ⦃q⦄ x = (q.equal_iff x x).1 refl

unfoldable pub list_eqb : List ℕ → List ℕ → Bool
list_eqb [] [] = true
list_eqb [] (y ∷ ys) = false
list_eqb (x ∷ xs) [] = false
list_eqb (x ∷ xs) (y ∷ ys) = nat_eqb x y && list_eqb xs ys

list_eqb→eq : (a b : List ℕ) → list_eqb a b ≡ true → a ≡ b
unfolding list_eqb
list_eqb→eq [] [] h = refl
list_eqb→eq [] (y ∷ ys) h = cc
list_eqb→eq (x ∷ xs) [] h = cc
list_eqb→eq (x ∷ xs) (y ∷ ys) h = ground (arith, list_eqb→eq xs ys)

list_eqb_refl : (a : List ℕ) → list_eqb a a ≡ true
unfolding list_eqb
list_eqb_refl [] = refl
list_eqb_refl (x ∷ xs) = ground (arith, list_eqb_refl xs)

pub list_eqb_iff : (a b : List ℕ) → (list_eqb a b ≡ true) ↔ (a ≡ b)
list_eqb_iff a b = (list_eqb→eq a b, λ e. cc (list_eqb_refl a, ap (list_eqb a) e))

-- A Go string is a sequence of bytes, not necessarily UTF-8.
abbrev pub GoString : Type 0
GoString = List ℕ

instance abbrev pub string_eq : Equality GoString
string_eq = record { equal = list_eqb; equal_iff = list_eqb_iff }

instance abbrev pub nat_eq : Equality ℕ
nat_eq = record { equal = nat_eqb; equal_iff = nat_eqb_iff }

-- the bytes of an ASCII literal
abbrev pub bytes : String → GoString
bytes String.[] = []
bytes (String.◌∷◌ c s) = code c ∷ bytes s
