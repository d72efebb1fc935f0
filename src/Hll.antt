-- ===== src/Hll.antt =====
-- exporter/internal/hll/hll.go: the HyperLogLog sketch. SHA-1 of `crypto/sha1` is a parameter that
-- maps the bytes of a key to the bytes of its digest, and floats are a parameter with the operations
-- that `Count` uses. The field `alpha`, set once by `New` from `m`, is computed where it is read.
pub mod Registers
pub mod Bounds
pub mod Sets
use ntp_server.Base.{
  ℕ, zero, suc, ◌+◌, ◌-◌, ◌*◌, ◌/◌, ◌%◌, ◌^◌, Bool, ◌&&◌, ◌||◌, Option, List, [], ◌∷◌, length, take,
  get_elem?, set, replicate, ltb, leb, nat_eqb, if◌then◌else◌, GoString, Run, ok, panic, ◌>>=◌,
  or_panic,
}

-- `bits` is `64 - p`; a register is a byte.
pub record HyperLogLog : Type 0 where
  pub p : ℕ
  pub m : ℕ
  pub bits : ℕ
  pub registers : List ℕ

-- `New(p)`
unfoldable pub new : ℕ → Run HyperLogLog
new p =
    if ltb p 4 || ltb 16 p
    then panic
    else ok (record { p = p; m = 2 ^ p; bits = 64 - p; registers = replicate (2 ^ p) 0 })

-- `NewDefault()`; `new 14` does not panic
unfoldable pub new_default : HyperLogLog
new_default = record { p = 14; m = 2 ^ 14; bits = 50; registers = replicate (2 ^ 14) 0 }

-- `v = v<<8 | uint64(sum[i])` over the bytes of `sum`
unfoldable pub word64 : ℕ → List ℕ → ℕ
word64 v [] = v
word64 v (b ∷ sum) = word64 ((v * 256 + b) % 2 ^ 64) sum

-- `bits.Len64` of package `math/bits`: how often a word below `2 ^ n` can be halved
unfoldable pub bit_len : ℕ → ℕ → ℕ
bit_len zero w = 0
bit_len (suc n) w = let rest = bit_len n (w / 2) in if nat_eqb w 0 then 0 else rest + 1

-- `rho`; the difference of two `uint` wraps
unfoldable pub rho : ℕ → ℕ → ℕ
rho bits w = if nat_eqb w 0 then bits + 1 else (bits + 2 ^ 64 - bit_len 64 w + 1) % 2 ^ 64

-- `if byte(rho) > h.registers[idx] { h.registers[idx] = byte(rho) }`
unfoldable pub update : HyperLogLog → ℕ → ℕ → Run HyperLogLog
update h idx r = do
  old ← or_panic (get_elem? h.registers idx)
  if ltb old (r % 256) then ok (record h { registers = set h.registers idx (r % 256) }) else ok h

-- `h.Add(key)`
unfoldable pub add : (List ℕ → List ℕ) → HyperLogLog → GoString → Run HyperLogLog
unfolding word64 rho update
add sha1 h key =
    let v = word64 0 (take 8 (sha1 key)) in update h (v / 2 ^ h.bits) (rho h.bits (v % 2 ^ h.bits))

-- the loop of `Merge`; `other.registers[i]` is read for every register of the receiver
unfoldable pub merge_registers : List ℕ → List ℕ → Run (List ℕ)
merge_registers [] other = ok []
merge_registers (x ∷ xs) [] = panic
merge_registers (x ∷ xs) (y ∷ ys) = do
  rest ← merge_registers xs ys
  ok ((if ltb x y then y else x) ∷ rest)

-- `h.Merge(other)`
unfoldable pub merge : HyperLogLog → HyperLogLog → Run HyperLogLog
merge h other =
    if nat_eqb other.p h.p
    then (do
      registers ← merge_registers h.registers other.registers
      ok (record h { registers = registers }))
    else panic

-- `h.Clone()`: values are not shared, so a copy is the sketch itself
unfoldable pub clone : HyperLogLog → HyperLogLog
clone h = record {
  p = h.p;
  m = h.m;
  bits = h.bits;
  registers = take (length h.registers) h.registers;
}

-- The float64 operations that `Count` uses; `decimal n k` is the literal `n / 10 ^ k`.
pub record Floats (F : Type 0) : Type 0 where
  pub of_nat : ℕ → F
  pub decimal : ℕ → ℕ → F
  pub plus : F → F → F
  pub times : F → F → F
  pub over : F → F → F
  pub log : F → F
  pub at_most : F → F → Bool

module _ {F : Type 0} (fl : Floats F) where
  open fl use {of_nat, decimal, plus, times, over, log, at_most}

  unfoldable pub alpha : ℕ → F
  alpha m = over (decimal 7213 4) (plus (decimal 10 1) (over (decimal 1079 3) (of_nat m)))

  -- `raw` and `zeros` after the loop of `Count`; `uint64(1)<<r` wraps to 0 at 64
  unfoldable pub raw_and_zeros : F → ℕ → List ℕ → F × ℕ
  raw_and_zeros raw zeros [] = (raw, zeros)
  raw_and_zeros raw zeros (r ∷ rs) =
      raw_and_zeros (plus raw (over (decimal 10 1) (of_nat (2 ^ r % 2 ^ 64))))
        (if nat_eqb r 0 then zeros + 1 else zeros) rs

  -- `h.Count()`
  unfoldable pub count : HyperLogLog → F
  count h =
      let (raw, zeros) = raw_and_zeros (decimal 0 1) 0 h.registers in
      let m = of_nat h.m in
      let estimate = over (times (times (alpha h.m) m) m) raw in
      if at_most estimate (times (decimal 25 1) m) && ltb 0 zeros
      then times m (log (over m (of_nat zeros)))
      else estimate
