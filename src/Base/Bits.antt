-- ===== src/Base/Bits.antt =====
-- `|` of a number whose low bits are 0 with one that fits in these bits.
use Prim.Native.Nat.{
  ℕ, zero, suc, ◌+◌, ◌*◌, ◌/◌, ◌^◌, ◌≤◌, ◌<◌, max, digits, bit_or, bit_or-bitwise,
}
use mathlib.Core.Path.{◌≡◌, refl, ap}
use native.Mathlib.Nat.{pow-suc}
use native.Mathlib.Omega.{arith}

-- the recursion of `|` on the binary digits
abbrev or_digits : ℕ → ℕ → ℕ → ℕ
or_digits = digits (λ b. b) max

or_digits_zero : (fuel a : ℕ) → a ≤ fuel → or_digits fuel a 0 ≡ a
or_digits_zero zero a h = omega arith
or_digits_zero (suc fuel) zero h = refl
or_digits_zero (suc fuel) (suc a) h = omega (arith, or_digits_zero fuel (suc a / 2) (omega arith))

mul-pow-suc : (q k : ℕ) → q * 2 ^ suc k ≡ q * 2 ^ k * 2
mul-pow-suc q k = omega (arith, ap (λ p. q * p) (pow-suc 2 k))

or_digits_sum :
    (k fuel q a r : ℕ) → a ≡ q * 2 ^ k → a ≤ fuel → r < 2 ^ k → or_digits fuel a r ≡ a + r
or_digits_sum zero fuel q a r e h low =
    let none_left : r ≡ 0 = omega arith in
    omega (arith, or_digits_zero fuel a h, ap (or_digits fuel a) none_left)
or_digits_sum (suc k) zero q a r e h low = omega arith
or_digits_sum (suc k) (suc fuel) q zero r e h low = omega arith
or_digits_sum (suc k) (suc fuel) q (suc a) r e h low = omega (
  arith,
  mul-pow-suc q k,
  or_digits_sum k fuel q (suc a / 2) (r / 2) (omega (arith, mul-pow-suc q k)) (omega arith)
      (omega (arith, pow-suc 2 k)),
)

pub bit_or_sum : (k q r : ℕ) → r < 2 ^ k → bit_or (q * 2 ^ k) r ≡ q * 2 ^ k + r
bit_or_sum k q r low = simp bit_or-bitwise (or_digits_sum k _ q _ r refl (omega arith) low)
