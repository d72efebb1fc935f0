-- ===== src/Hll/Bounds.antt =====
-- The numbers of a sketch: the index of a key is a register, its rank fits in a byte and does not
-- wrap, so `New`, `Add` and `Merge` keep a sketch well formed and do not panic.
use native.Mathlib.Nat.{zero-add, suc-add, pow-suc, mod-lt, one-le-pow}
use ntp_server.Base.{
  ℕ, zero, suc, ◌+◌, ◌-◌, ◌*◌, ◌/◌, ◌%◌, ◌^◌, ◌≤◌, ◌<◌, max, ◌≡◌, refl, ap, sym, ◌∙◌, inl, inr,
  List, [], ◌∷◌, arith, length, take, get_elem?-lt, replicate, ltb, nat_eqb, Bool-cases, GoString,
  ok, Returns, length-replicate,
}
use ntp_server.Hll.{HyperLogLog, new, word64, bit_len, rho, update, add, merge}
use ntp_server.Hll.Registers.{
  raise, zip_max, register, register-raise, register-zip_max, length-raise, set-raise,
  length-zip_max, merge_registers-zip_max,
}

word64-lt : (v : ℕ) (sum : List ℕ) → v < 2 ^ 64 → word64 v sum < 2 ^ 64
unfolding word64
word64-lt v [] h = h
word64-lt v (b ∷ sum) h = word64-lt ((v * 256 + b) % 2 ^ 64) sum (omega arith)

bit_len-le : (n k w : ℕ) → w < 2 ^ k → bit_len n w ≤ k
unfolding bit_len
bit_len-le zero k w h = omega arith
bit_len-le (suc n) zero w h = ground arith
bit_len-le (suc n) (suc k) w h =
    let half : w / 2 < 2 ^ k = omega (arith, pow-suc 2 k) in
    ground (arith, bit_len-le n k (w / 2) half)

bit_len-zero : (w : ℕ) → w ≡ 0 → bit_len 64 w ≡ 0
unfolding bit_len
bit_len-zero w e = rw e

-- with at most 60 bits nothing wraps: the rank is between 1 and `bits + 1`
pub rho_lem : (bits w : ℕ) → bits ≤ 60 → w < 2 ^ bits → rho bits w ≡ bits + 1 - bit_len 64 w
unfolding rho
rho_lem bits w b h =
    let len = bit_len-le 64 bits w h in
    elim (Bool-cases (nat_eqb w 0)) [
      | inl z ↦ rw z (ground (arith, bit_len-zero w))
      | inr nz ↦ rw nz (omega (arith, len))
    ]

pow_split : (k p : ℕ) → 2 ^ (k + p) ≡ 2 ^ k * 2 ^ p
pow_split zero p = rw zero-add (omega arith)
pow_split (suc k) p =
    rw (suc-add, pow-suc, pow-suc) (omega (arith, ap (λ (t : ℕ). t * 2) (pow_split k p)))

slot-lt : (v a b : ℕ) → v < a * b → v / a < b
slot-lt v a b h = grind arith

-- A sketch of precision `p`: `2 ^ p` registers, each at most `bits + 1`.
pub record IsSketch (h : HyperLogLog) : Type 0 where
  pub low : 4 ≤ h.p
  pub high : h.p ≤ 16
  pub m : h.m ≡ 2 ^ h.p
  pub bits : h.bits + h.p ≡ 64
  pub size : length h.registers ≡ 2 ^ h.p
  pub ranks : (i : ℕ) → register h.registers i ≤ h.bits + 1

register-replicate : (n i : ℕ) → register (replicate n 0) i ≡ 0
unfolding replicate
register-replicate zero i = refl
register-replicate (suc n) zero = refl
register-replicate (suc n) (suc i) = register-replicate n i

-- For a precision from 4 to 16 `New` does not panic, and gives a well-formed sketch of that precision
-- in which every register is empty.
pub new-IsSketch :
    (p : ℕ)
    → (4 ≤ p) × (p ≤ 16)
    → Returns (new p) (λ h. IsSketch h × (h.p ≡ p) × ((i : ℕ) → register h.registers i ≡ 0))
unfolding new
new-IsSketch p w = (
  record { p = p; m = 2 ^ p; bits = 64 - p; registers = replicate (2 ^ p) 0 },
  ground arith,
  (
    record {
      low = w.0;
      high = w.1;
      m = refl;
      bits = omega arith;
      size = length-replicate (2 ^ p) 0;
      ranks = λ i. rw register-replicate (omega arith);
    },
    refl,
    register-replicate (2 ^ p),
  ),
)

-- the register of a key in a sketch with `bits` bits, and the rank that it records
abbrev pub slot : (List ℕ → List ℕ) → ℕ → GoString → ℕ
slot sha1 bits key = word64 0 (take 8 (sha1 key)) / 2 ^ bits

abbrev pub rank : (List ℕ → List ℕ) → ℕ → GoString → ℕ
rank sha1 bits key = rho bits (word64 0 (take 8 (sha1 key)) % 2 ^ bits)

module _ (sha1 : List ℕ → List ℕ) {h : HyperLogLog} (w : IsSketch h) (key : GoString) where
  pub slot-lt_length : slot sha1 h.bits key < length h.registers
  slot-lt_length =
      let v : ℕ = word64 0 (take 8 (sha1 key)) in
      let split : 2 ^ h.bits * 2 ^ h.p ≡ 2 ^ 64 =
        sym (pow_split h.bits h.p) ∙ ap (λ (n : ℕ). 2 ^ n) w.bits in
      rw w.size (
        slot-lt v (2 ^ h.bits) (2 ^ h.p) (rw split (word64-lt 0 (take 8 (sha1 key)) (omega arith))))

  pub rank-le : (1 ≤ rank sha1 h.bits key) × (rank sha1 h.bits key ≤ h.bits + 1)
  rank-le =
      let v : ℕ = word64 0 (take 8 (sha1 key)) in
      let low : v % 2 ^ h.bits < 2 ^ h.bits = mod-lt v (one-le-pow h.bits 2 (omega arith)) in
      let b : h.bits ≤ 60 = omega (arith, w.low, w.bits) in
      omega
        (arith, rho_lem h.bits (v % 2 ^ h.bits) b low, bit_len-le 64 h.bits (v % 2 ^ h.bits) low)

  -- `Add` on a well-formed sketch does not panic: it raises the key's register to the key's rank.
  pub add-raise :
      add sha1 h key
      ≡ ok
          (record h { registers = raise (slot sha1 h.bits key) (rank sha1 h.bits key) h.registers })
  unfolding add update
  add-raise =
      let (old, found) = get_elem?-lt h.registers (slot sha1 h.bits key) slot-lt_length in
      let byte : rank sha1 h.bits key % 256 ≡ rank sha1 h.bits key =
        omega (arith, rank-le, w.low, w.bits) in
      let raised = set-raise h.registers (slot sha1 h.bits key) old (rank sha1 h.bits key) found in
      rw (found, byte)
        (elim (Bool-cases (ltb old (rank sha1 h.bits key))) [
          | inl t ↦ rw t (ap (λ (xs : List ℕ). ok (record h { registers = xs })) (rw t at raised))
          | inr f ↦ rw f (ap (λ (xs : List ℕ). ok (record h { registers = xs })) (rw f at raised))
        ])

  pub raise-IsSketch :
      IsSketch
        (record h { registers = raise (slot sha1 h.bits key) (rank sha1 h.bits key) h.registers })
  raise-IsSketch = record {
    low = w.low;
    high = w.high;
    m = w.m;
    bits = w.bits;
    size = length-raise _ _ h.registers ∙ w.size;
    ranks = λ i.
        rw
          (register-raise (slot sha1 h.bits key) (rank sha1 h.bits key) i h.registers
            slot-lt_length)
          (ground (arith, w.ranks i, rank-le));
  }

module _ {h g : HyperLogLog} (w : IsSketch h) (v : IsSketch g) (e : h.p ≡ g.p) where
  same_size : length h.registers ≡ length g.registers
  same_size = w.size ∙ ap (λ (n : ℕ). 2 ^ n) e ∙ sym v.size

  -- `Merge` of two sketches of one precision does not panic, and takes the maximum of each register.
  pub merge-zip_max : merge h g ≡ ok (record h { registers = zip_max h.registers g.registers })
  unfolding merge
  merge-zip_max = rw (merge_registers-zip_max h.registers g.registers same_size) (ground arith)

  pub zip_max-IsSketch : IsSketch (record h { registers = zip_max h.registers g.registers })
  zip_max-IsSketch = record {
    low = w.low;
    high = w.high;
    m = w.m;
    bits = w.bits;
    size = length-zip_max h.registers g.registers same_size ∙ w.size;
    ranks = λ i.
        rw (register-zip_max h.registers g.registers i same_size)
          (omega (arith, w.ranks i, v.ranks i, w.bits, v.bits, e));
  }

  pub register-merge :
      (i : ℕ)
      → register (zip_max h.registers g.registers) i
        ≡ max (register h.registers i) (register g.registers i)
  register-merge i = register-zip_max h.registers g.registers i same_size
