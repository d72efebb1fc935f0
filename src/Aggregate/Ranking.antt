-- ===== src/Aggregate/Ranking.antt =====
-- The choice of the top ASNs and the pruning of the totals
-- (exporter/internal/aggregate/asn.go), for every sorting function that does what `sort.Slice`
-- promises.
use mathlib.Core.Logic.{∥∥₁_elim}
use mathlib.Core.List.{Perm, Permᴰ}
use native.Mathlib.Nat.{ℕ_set}
use ntp_server.Base.{
  ℕ, zero, suc, min, ◌≡◌, ◌∙◌, refl, ap, Bool, false, List, [], ◌∷◌, ◌++◌, map, arith, length, take,
  drop, length-take, All, All-imp, ◌<◌, ◌≤◌, ◌⊎◌,
}
use ntp_server.Base.GoMap.{GoMap}
use ntp_server.Base.Order.{IsWeakOrder, IsSorted, Sorts}
use ntp_server.Aggregate.Strings.{string_ltb-IsWeakOrder}
use ntp_server.Aggregate.Asn.{
  Kv, format_int, string_ltb, ranks_before, counts_more, top_n_asns, prune_to_largest,
}

pub ranks_before-IsWeakOrder : IsWeakOrder ranks_before
unfolding ranks_before
ranks_before-IsWeakOrder = record {
  asym =
      λ (a, n) (b, m) h. ground (arith, string_ltb-IsWeakOrder.asym (format_int a) (format_int b));
  cotrans = λ (a, n) (b, m) (c, k) h i.
      ground (arith, string_ltb-IsWeakOrder.cotrans (format_int a) (format_int b) (format_int c));
}

pub counts_more-IsWeakOrder : IsWeakOrder counts_more
unfolding counts_more
counts_more-IsWeakOrder = record {
  asym = λ (a, n) (b, m) h. ground arith;
  cotrans = λ (a, n) (b, m) (c, k) h i. ground arith;
}

All-drop : (P : Kv → Type 0) (n : ℕ) (xs : List Kv) → All P xs → All P (drop n xs)
All-drop P zero xs h = h
All-drop P (suc n) [] h = tt
All-drop P (suc n) (x ∷ xs) h = All-drop P n xs h.1

-- in a sorted list no element behind a cut is less than one before it
cut-IsSorted :
    (less : Kv → Kv → Bool) (n : ℕ) (xs : List Kv)
    → IsSorted less xs
    → All (λ y. All (λ x. less x y ≡ false) (drop n xs)) (take n xs)
cut-IsSorted less zero xs h = tt
cut-IsSorted less (suc n) [] h = tt
cut-IsSorted less (suc n) (x ∷ xs) h = (All-drop _ n xs h.0, cut-IsSorted less n xs h.1)

take-drop : (n : ℕ) (xs : List Kv) → take n xs ++ drop n xs ≡ xs
take-drop zero xs = refl
take-drop (suc n) [] = refl
take-drop (suc n) (x ∷ xs) = ap (◌∷◌ x) (take-drop n xs)

length-Permᴰ : {xs ys : List Kv} → Permᴰ xs ys → length xs ≡ length ys
length-Permᴰ Permᴰ.nil = refl
length-Permᴰ (Permᴰ.cons e d) = ap suc (length-Permᴰ d)
length-Permᴰ (Permᴰ.swap e f) = refl
length-Permᴰ (Permᴰ.trans d f) = length-Permᴰ d ∙ length-Permᴰ f

length-Perm : {xs ys : List Kv} → Perm xs ys → length xs ≡ length ys
length-Perm {xs} {ys} p = ∥∥₁_elim p (ℕ_set (length xs) (length ys)) length-Permᴰ

-- `kept` are `n` of the elements of `all`, or all if there are fewer, `left` are the others, and no
-- element of `left` stands before one of `kept`, as `NoBetter` says.
pub record IsBest (NoBetter : Kv → Kv → Type 0) (n : ℕ) (all kept : List Kv) : Type 0 where
  pub left : List Kv
  pub perm : Perm (kept ++ left) all
  pub count : length kept ≡ min n (length all)
  pub best : All (λ y. All (λ x. NoBetter x y) left) kept

-- the count of `x` is not larger
abbrev pub IsSmaller : Kv → Kv → Type 0
IsSmaller (a, n) (b, m) = n ≤ m

-- the count of `x` is smaller, or it is the same and its decimal string is not before the other
abbrev pub IsLower : Kv → Kv → Type 0
IsLower (a, n) (b, m) = (n < m) ⊎ ((n ≡ m) × (string_ltb (format_int a) (format_int b) ≡ false))

ranks_before-IsLower : (x y : Kv) → ranks_before x y ≡ false → IsLower x y
unfolding ranks_before
ranks_before-IsLower (a, n) (b, m) h = ground arith

counts_more-IsSmaller : (x y : Kv) → counts_more x y ≡ false → IsSmaller x y
unfolding counts_more
counts_more-IsSmaller (a, n) (b, m) h = ground arith

module _ (sort : (Kv → Kv → Bool) → List Kv → List Kv) (sorts : Sorts sort) where
  take-IsBest :
      (less : Kv → Kv → Bool) (NoBetter : Kv → Kv → Type 0) (n : ℕ) (xs : List Kv)
      → IsWeakOrder less
      → ((x y : Kv) → less x y ≡ false → NoBetter x y)
      → IsBest NoBetter n xs (take n (sort less xs))
  take-IsBest less NoBetter n xs w means =
      let kept = take n (sort less xs) in
      let left = drop n (sort less xs) in
      record {
        left = left;
        perm = rw take-drop (sorts.perm less xs);
        count = rw (length-take, length-Perm (sorts.perm less xs)) refl;
        best =
            All-imp (λ y. All (λ x. less x y ≡ false) left) (λ y. All (λ x. NoBetter x y) left) kept
              (λ y h. All-imp (λ x. less x y ≡ false) (λ x. NoBetter x y) left (λ x. means x y) h)
              (cut-IsSorted less n (sort less xs) (sorts.sorted less xs w));
      }

  -- Whatever `sort.Slice` does with equal elements, `top_n_asns` returns the ASNs of `n` entries of
  -- the totals, or of all entries if there are fewer, and each entry that is left out has a smaller
  -- total than each of them, or the same total and a decimal string that is not before the other.
  pub top_n_asns-IsBest :
      (totals : GoMap ℕ ℕ) (n : ℕ)
      → (kept : List Kv) × (top_n_asns sort totals n ≡ map (λ e. e.0) kept)
        × IsBest IsLower n totals kept
  unfolding top_n_asns
  top_n_asns-IsBest totals n = (
    _,
    refl,
    take-IsBest ranks_before IsLower n totals ranks_before-IsWeakOrder ranks_before-IsLower,
  )

  -- `prune_to_largest` keeps `max` entries of the totals, or all if there are fewer, and no entry
  -- that it drops has a larger count than one that it keeps.
  pub prune_to_largest-IsBest :
      (totals : GoMap ℕ ℕ) (max : ℕ)
      → IsBest IsSmaller max totals (prune_to_largest sort totals max)
  unfolding prune_to_largest
  prune_to_largest-IsBest totals max =
      take-IsBest counts_more IsSmaller max totals counts_more-IsWeakOrder counts_more-IsSmaller
