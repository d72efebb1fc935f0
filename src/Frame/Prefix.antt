-- ===== src/Frame/Prefix.antt =====
-- An access to a frame past a known prefix is an access to what follows the prefix.
use ntp_server.Base.{
  ℕ, zero, suc, ◌+◌, ◌-◌, ◌<◌, ◌≡◌, ◌∙◌, refl, List, [], ◌∷◌, ◌++◌, arith, length, length-append,
  drop-append, take-append, nat_eq, string_eq, ltb,
}
use native.Mathlib.Nat.{zero-add, suc-add, add-zero, add_assoc}
use ntp_server.Frame.{word_at}
use ntp_server.Frame.Access.{accept, at, slice, slice_from}

-- An access past a prefix is an access to what follows it.
pub at-append : (xs ys : List ℕ) (k i : ℕ) → length xs ≡ k → at (xs ++ ys) (k + i) ≡ at ys i
unfolding at
at-append [] ys zero i h = rw zero-add
at-append [] ys (suc k) i h = absurd (omega arith)
at-append (x ∷ xs) ys zero i h = absurd (omega arith)
at-append (x ∷ xs) ys (suc k) i h = rw suc-add (at-append xs ys k i (omega arith))

pub at_first :
    (xs : List ℕ) (y : ℕ) (ys : List ℕ) (k : ℕ) → length xs ≡ k → at (xs ++ (y ∷ ys)) k ≡ accept y
unfolding at
at_first xs y ys k h = rw add-zero at (at-append xs (y ∷ ys) k 0 h)

module _ (xs ys : List ℕ) (k : ℕ) (h : length xs ≡ k) where
  pub at-append_here : at (xs ++ ys) k ≡ at ys 0
  at-append_here = rw add-zero at (at-append xs ys k 0 h)

  pub word_at-append : (i : ℕ) → word_at (xs ++ ys) (k + i) ≡ word_at ys i
  unfolding word_at
  word_at-append i = rw (add_assoc, at-append xs ys k i h, at-append xs ys k (i + 1) h)

  pub word_at-append_here : word_at (xs ++ ys) k ≡ word_at ys 0
  word_at-append_here = rw add-zero at (word_at-append 0)

  pub length-append_add : length (xs ++ ys) ≡ k + length ys
  length-append_add = omega (arith, length-append {0} xs ys)

  pub ltb-append : (n : ℕ) → ltb (length (xs ++ ys)) (k + n) ≡ ltb (length ys) n
  ltb-append n = ground (arith, length-append_add)

  pub slice-append : (a b : ℕ) → slice (xs ++ ys) (k + a) (k + b) ≡ slice ys a b
  unfolding slice
  slice-append a b =
      let e : k + b - (k + a) ≡ b - a = omega arith in
      rw (e, drop-append xs ys k a h) (ground (arith, length-append_add))

  pub slice_from-append : (a : ℕ) → slice_from (xs ++ ys) (k + a) ≡ slice_from ys a
  unfolding slice_from
  slice_from-append a = rw (drop-append xs ys k a h) (ground (arith, length-append_add))

-- the leading part of a list
pub slice_here : (xs ys : List ℕ) (k : ℕ) → length xs ≡ k → slice (xs ++ ys) 0 k ≡ accept xs
unfolding slice
slice_here xs ys k h =
    let e : k - 0 ≡ k = omega arith in
    rw (e, take-append xs ys k h) (ground (arith, length-append_add xs ys k h))

pub at-append_left : (xs ys : List ℕ) (i : ℕ) → i < length xs → at (xs ++ ys) i ≡ at xs i
unfolding at
at-append_left [] ys i h = absurd (omega arith)
at-append_left (x ∷ xs) ys zero h = refl
at-append_left (x ∷ xs) ys (suc i) h = at-append_left xs ys i (omega arith)

-- two addresses of `n` bytes, one after the other
module _ (pre src dst rest : List ℕ) (k n : ℕ) (p : length pre ≡ k) (s : length src ≡ n)
    (d : length dst ≡ n) where
  pub slice-src : slice (pre ++ (src ++ (dst ++ rest))) k (k + n) ≡ accept src
  slice-src =
      rw add-zero at (slice-append pre (src ++ (dst ++ rest)) k p 0 n)
      ∙ slice_here src (dst ++ rest) n s

  pub slice-dst : slice (pre ++ (src ++ (dst ++ rest))) (k + n) (k + (n + n)) ≡ accept dst
  slice-dst =
      slice-append pre (src ++ (dst ++ rest)) k p n (n + n)
      ∙ rw add-zero at (slice-append src (dst ++ rest) n s 0 n)
      ∙ slice_here dst rest n d
