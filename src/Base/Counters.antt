-- ===== src/Base/Counters.antt =====
-- Go maps of counters: `m[k] += n`, and the merge of one into another.
use Prim.Native.Nat.{ℕ, ◌+◌}
use mathlib.Core.Path.{◌≡◌, refl}
use mathlib.Core.List.{[], ◌∷◌}
use mathlib.Core.Option.{Option, none, some}
use native.Mathlib.Omega.{arith}
use ntp_server.Base.Tests.{if◌then◌else◌}
use ntp_server.Base.Comparable.{Equality, ◌==◌}
use ntp_server.Base.GoMap.{GoMap, lookup, insert, lookup-insert, UniqueKeys, insert-UniqueKeys}

abbrev or_zero : Option ℕ → ℕ
or_zero none = 0
or_zero (some n) = n

module _ {ℓ} {K : Type ℓ} ⦃e : Equality K⦄ where
  -- `m[k]`, 0 if the key is absent
  unfoldable pub value : K → GoMap K ℕ → ℕ
  value k m = or_zero (lookup k m)

  -- `m[k] += n`
  unfoldable pub bump : K → ℕ → GoMap K ℕ → GoMap K ℕ
  unfolding value
  bump k n m = insert k (value k m + n) m

  -- `for k, v := range m { acc[k] += v }`
  unfoldable pub merge_into : GoMap K ℕ → GoMap K ℕ → GoMap K ℕ
  merge_into acc [] = acc
  merge_into acc ((k, v) ∷ m) = merge_into (bump k v acc) m

  -- the sum of all counters
  unfoldable pub total : GoMap K ℕ → ℕ
  total [] = 0
  total ((k, v) ∷ m) = v + total m

  -- the sum of the counters under one key
  unfoldable pub at_key : K → GoMap K ℕ → ℕ
  at_key j [] = 0
  at_key j ((k, v) ∷ m) = (if k == j then v else 0) + at_key j m

  pub value-bump :
      (k j : K) (n : ℕ) (m : GoMap K ℕ)
      → value j (bump k n m) ≡ value j m + (if k == j then n else 0)
  unfolding bump
  value-bump k j n m =
      ground (arith, lookup-insert k j (or_zero (lookup k m) + n) m, e.equal_iff k j)

  total-insert :
      (k : K) (n : ℕ) (m : GoMap K ℕ) → total (insert k (or_zero (lookup k m) + n) m) ≡ total m + n
  unfolding total insert lookup
  total-insert k n [] = omega arith
  total-insert k n ((i, v) ∷ m) = ground (arith, total-insert k n m)

  pub total-bump : (k : K) (n : ℕ) (m : GoMap K ℕ) → total (bump k n m) ≡ total m + n
  unfolding bump
  total-bump k n m = total-insert k n m

  pub total-merge_into : (acc m : GoMap K ℕ) → total (merge_into acc m) ≡ total acc + total m
  unfolding merge_into total
  total-merge_into acc [] = omega arith
  total-merge_into acc ((k, v) ∷ m) =
      omega (arith, total-merge_into (bump k v acc) m, total-bump k v acc)

  pub value-merge_into :
      (j : K) (acc m : GoMap K ℕ) → value j (merge_into acc m) ≡ value j acc + at_key j m
  unfolding merge_into at_key
  value-merge_into j acc [] = omega arith
  value-merge_into j acc ((k, v) ∷ m) =
      omega (arith, value-merge_into j (bump k v acc) m, value-bump k j v acc)

  at_key_absent : (j : K) (m : GoMap K ℕ) → lookup j m ≡ none → at_key j m ≡ 0
  unfolding at_key lookup
  at_key_absent j [] h = refl
  at_key_absent j ((k, v) ∷ m) h = ground (arith, at_key_absent j m)

  pub at_key-value : (j : K) (m : GoMap K ℕ) → UniqueKeys m → at_key j m ≡ value j m
  unfolding at_key value lookup
  at_key-value j [] u = refl
  at_key-value j ((k, v) ∷ m) u =
      ground (arith, at_key_absent k m u.0, at_key-value j m u.1, e.equal_iff k j)

  pub bump-UniqueKeys : (k : K) (n : ℕ) (m : GoMap K ℕ) → UniqueKeys m → UniqueKeys (bump k n m)
  unfolding bump
  bump-UniqueKeys k n m u = insert-UniqueKeys k _ m u

  pub merge_into-UniqueKeys : (acc m : GoMap K ℕ) → UniqueKeys acc → UniqueKeys (merge_into acc m)
  unfolding merge_into
  merge_into-UniqueKeys acc [] u = u
  merge_into-UniqueKeys acc ((k, v) ∷ m) u =
      merge_into-UniqueKeys (bump k v acc) m (bump-UniqueKeys k v acc u)
