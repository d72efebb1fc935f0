-- ===== src/Hll/Registers.antt =====
-- The registers as a list: raising one, the pointwise maximum, and how they commute.
use ntp_server.Base.{
  ℕ, zero, suc, ◌<◌, max, ◌≡◌, refl, ap, some, List, [], ◌∷◌, arith, length, get_elem?, set, ltb,
  if◌then◌else◌, ok,
}
use ntp_server.Hll.{merge_registers}

-- register `i` raised to at least `r`
pub raise : ℕ → ℕ → List ℕ → List ℕ
raise i r [] = []
raise zero r (x ∷ xs) = max x r ∷ xs
raise (suc i) r (x ∷ xs) = x ∷ raise i r xs

pub zip_max : List ℕ → List ℕ → List ℕ
zip_max [] ys = []
zip_max (x ∷ xs) [] = []
zip_max (x ∷ xs) (y ∷ ys) = max x y ∷ zip_max xs ys

-- the value of a register, 0 out of range
abbrev pub register : List ℕ → ℕ → ℕ
register [] i = 0
register (x ∷ xs) zero = x
register (x ∷ xs) (suc i) = register xs i

pub length-raise : (i r : ℕ) (xs : List ℕ) → length (raise i r xs) ≡ length xs
unfolding raise
length-raise i r [] = refl
length-raise zero r (x ∷ xs) = refl
length-raise (suc i) r (x ∷ xs) = ap suc (length-raise i r xs)

pub register-raise :
    (i r j : ℕ) (xs : List ℕ)
    → i < length xs
    → register (raise i r xs) j ≡ (
        if ltb i j then register xs j else if ltb j i then register xs j else max (register xs j) r)
unfolding raise
register-raise i r j [] h = absurd (omega arith)
register-raise zero r zero (x ∷ xs) h = refl
register-raise zero r (suc j) (x ∷ xs) h = ground arith
register-raise (suc i) r zero (x ∷ xs) h = ground arith
register-raise (suc i) r (suc j) (x ∷ xs) h = ground (arith, register-raise i r j xs)

-- two lists of registers are the same if they have the same length and the same values
pub registers_ext :
    (xs ys : List ℕ) → length xs ≡ length ys → ((i : ℕ) → register xs i ≡ register ys i) → xs ≡ ys
registers_ext [] [] e h = refl
registers_ext [] (y ∷ ys) e h = absurd (omega arith)
registers_ext (x ∷ xs) [] e h = absurd (omega arith)
registers_ext (x ∷ xs) (y ∷ ys) e h = cc (h 0, registers_ext xs ys (omega arith) (λ i. h (suc i)))

pub length-zip_max : (xs ys : List ℕ) → length xs ≡ length ys → length (zip_max xs ys) ≡ length xs
unfolding zip_max
length-zip_max [] ys e = refl
length-zip_max (x ∷ xs) [] e = absurd (omega arith)
length-zip_max (x ∷ xs) (y ∷ ys) e = omega (arith, length-zip_max xs ys)

pub register-zip_max :
    (xs ys : List ℕ) (i : ℕ)
    → length xs ≡ length ys
    → register (zip_max xs ys) i ≡ max (register xs i) (register ys i)
unfolding zip_max
register-zip_max [] [] i e = omega arith
register-zip_max [] (y ∷ ys) i e = absurd (omega arith)
register-zip_max (x ∷ xs) [] i e = absurd (omega arith)
register-zip_max (x ∷ xs) (y ∷ ys) zero e = refl
register-zip_max (x ∷ xs) (y ∷ ys) (suc i) e = register-zip_max xs ys i (omega arith)

-- the loop of `Merge` computes the maximum
pub merge_registers-zip_max :
    (xs ys : List ℕ) → length xs ≡ length ys → merge_registers xs ys ≡ ok (zip_max xs ys)
unfolding merge_registers zip_max
merge_registers-zip_max [] ys e = refl
merge_registers-zip_max (x ∷ xs) [] e = absurd (omega arith)
merge_registers-zip_max (x ∷ xs) (y ∷ ys) e =
    rw (merge_registers-zip_max xs ys (omega arith)) (ground arith)

pub set-raise :
    (xs : List ℕ) (i old r : ℕ)
    → get_elem? xs i ≡ some old
    → (if ltb old r then set xs i r else xs) ≡ raise i r xs
unfolding raise
set-raise [] i old r e = cc
set-raise (x ∷ xs) zero old r e = ground arith
set-raise (x ∷ xs) (suc i) old r e = ground (arith, set-raise xs i old r e)
