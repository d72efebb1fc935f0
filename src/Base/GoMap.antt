-- ===== src/Base/GoMap.antt =====
-- Go's `map[K]V` as a list of entries, in the order in which a `range` over it happens to run.
use Prim.Native.Nat.{◌+◌, ◌≤◌}
use mathlib.Core.Path.{◌≡◌, refl}
use mathlib.Core.Logic.{inl, inr}
use mathlib.Core.Bool.{Bool}
use mathlib.Core.List.{List, [], ◌∷◌}
use mathlib.Core.Option.{Option, none, some}
use native.Mathlib.Omega.{arith}
use ntp_server.Base.Tests.{if◌then◌else◌, Bool-cases}
use ntp_server.Base.Lists.{length}
use ntp_server.Base.Comparable.{Equality, ◌==◌}

abbrev pub GoMap {ℓ κ} : Type ℓ → Type κ → Type (ℓ ⊔ κ)
GoMap K V = List (K × V)

-- the abstract effect of `delete_where` at one key
abbrev pub keep_unless {κ} : {V : Type κ} → (V → Bool) → Option V → Option V
keep_unless drop none = none
keep_unless drop (some v) = if drop v then none else some v

module _ {ℓ κ} {K : Type ℓ} {V : Type κ} ⦃e : Equality K⦄ where
  -- `m[k] = v`
  unfoldable pub insert : K → V → GoMap K V → GoMap K V
  insert key new [] = (key, new) ∷ []
  insert key new ((other, old) ∷ rest) =
      if other == key then (key, new) ∷ rest else (other, old) ∷ insert key new rest

  -- `v, ok := m[k]`
  unfoldable pub lookup : K → GoMap K V → Option V
  lookup key [] = none
  lookup key ((other, found) ∷ rest) = if other == key then some found else lookup key rest

  -- `delete(m, k)`
  unfoldable pub delete : K → GoMap K V → GoMap K V
  delete k [] = []
  delete k ((j, w) ∷ m) = let rest = delete k m in if j == k then rest else (j, w) ∷ rest

  -- `for k, v := range m { if drop(v) { delete(m, k) } }`
  unfoldable pub delete_where : (V → Bool) → GoMap K V → GoMap K V
  delete_where drop [] = []
  delete_where drop ((j, w) ∷ m) =
      let rest = delete_where drop m in if drop w then rest else (j, w) ∷ rest

  -- what every map of the program keeps: an entry's key has no other entry
  abbrev pub UniqueKeys : GoMap K V → Type κ
  UniqueKeys [] = Unit
  UniqueKeys ((j, w) ∷ m) = (lookup j m ≡ none) × UniqueKeys m

  pub lookup-insert :
      (k j : K) (v : V) (m : GoMap K V)
      → lookup j (insert k v m) ≡ (if k == j then some v else lookup j m)
  unfolding lookup insert
  lookup-insert k j new [] = refl
  lookup-insert k j new ((other, old) ∷ rest) =
      ground (
        arith,
        e.equal_iff k j,
        e.equal_iff other k,
        e.equal_iff other j,
        lookup-insert k j new rest,
      )

  pub lookup-delete :
      (k j : K) (m : GoMap K V) → lookup j (delete k m) ≡ (if k == j then none else lookup j m)
  unfolding lookup delete
  lookup-delete k j [] = ground arith
  lookup-delete k j ((i, w) ∷ m) =
      ground (arith, e.equal_iff k j, e.equal_iff i k, e.equal_iff i j, lookup-delete k j m)

  delete_where_absent :
      (drop : V → Bool) (j : K) (m : GoMap K V)
      → lookup j m ≡ none
      → lookup j (delete_where drop m) ≡ none
  unfolding lookup delete_where
  delete_where_absent drop j [] h = refl
  delete_where_absent drop j ((i, w) ∷ m) h = ground (arith, delete_where_absent drop j m)

  pub lookup-delete_where :
      (drop : V → Bool) (j : K) (m : GoMap K V)
      → UniqueKeys m
      → lookup j (delete_where drop m) ≡ keep_unless drop (lookup j m)
  unfolding lookup delete_where
  lookup-delete_where drop j [] u = refl
  lookup-delete_where drop j ((i, w) ∷ m) u =
      ground
        (arith, e.equal_iff i j, lookup-delete_where drop j m u.1, delete_where_absent drop i m u.0)

  pub delete_where-UniqueKeys :
      (drop : V → Bool) (m : GoMap K V) → UniqueKeys m → UniqueKeys (delete_where drop m)
  unfolding delete_where
  delete_where-UniqueKeys drop [] u = tt
  delete_where-UniqueKeys drop ((i, w) ∷ m) u = elim (Bool-cases (drop w)) [
    | inl d ↦ rw d (delete_where-UniqueKeys drop m u.1)
    | inr d ↦ rw d (delete_where_absent drop i m u.0, delete_where-UniqueKeys drop m u.1)
  ]

  pub insert-UniqueKeys : (k : K) (v : V) (m : GoMap K V) → UniqueKeys m → UniqueKeys (insert k v m)
  unfolding insert lookup
  insert-UniqueKeys k v [] u = (refl, tt)
  insert-UniqueKeys k v ((i, w) ∷ m) u = elim (Bool-cases (i == k)) [
    | inl d ↦ rw d (ground (arith, e.equal_iff i k), u.1)
    | inr d ↦ rw d (
      ground (arith, lookup-insert k i v m, e.equal_iff i k, e.equal_iff k i),
      insert-UniqueKeys k v m u.1,
    )
  ]

  pub delete-UniqueKeys : (k : K) (m : GoMap K V) → UniqueKeys m → UniqueKeys (delete k m)
  unfolding delete
  delete-UniqueKeys k [] u = tt
  delete-UniqueKeys k ((i, w) ∷ m) u = elim (Bool-cases (i == k)) [
    | inl d ↦ rw d (delete-UniqueKeys k m u.1)
    | inr d ↦ rw d (ground (arith, lookup-delete k i m), delete-UniqueKeys k m u.1)
  ]

  pub length-insert_new :
      (k : K) (v : V) (m : GoMap K V) → lookup k m ≡ none → length (insert k v m) ≡ length m + 1
  unfolding insert lookup
  length-insert_new k v [] h = omega arith
  length-insert_new k v ((i, w) ∷ m) h = ground (arith, length-insert_new k v m)

  pub length-insert_old :
      (k : K) (v : V) (m : GoMap K V) (w : V)
      → lookup k m ≡ some w
      → length (insert k v m) ≡ length m
  unfolding insert lookup
  length-insert_old k v [] w h = cc
  length-insert_old k v ((i, x) ∷ m) w h = ground (arith, length-insert_old k v m w)

  pub length-delete-le : (k : K) (m : GoMap K V) → length (delete k m) ≤ length m
  unfolding delete
  length-delete-le k [] = omega arith
  length-delete-le k ((i, w) ∷ m) = ground (arith, length-delete-le k m)

  pub length-delete_where-le :
      (drop : V → Bool) (m : GoMap K V) → length (delete_where drop m) ≤ length m
  unfolding delete_where
  length-delete_where-le drop [] = omega arith
  length-delete_where-le drop ((i, w) ∷ m) = ground (arith, length-delete_where-le drop m)

  length-delete_absent :
      (k : K) (m : GoMap K V) → lookup k m ≡ none → length (delete k m) ≡ length m
  unfolding lookup delete
  length-delete_absent k [] h = refl
  length-delete_absent k ((i, w) ∷ m) h = ground (arith, length-delete_absent k m)

  pub length-delete :
      (k : K) (m : GoMap K V) {v : V}
      → UniqueKeys m
      → lookup k m ≡ some v
      → length (delete k m) + 1 ≡ length m
  unfolding lookup delete
  length-delete k [] u h = cc
  length-delete k ((i, w) ∷ m) u h = elim (Bool-cases (i == k)) [
    | inl same ↦
        let e = (e.equal_iff i k).0 same in
        rw same (omega (arith, length-delete_absent k m (rw e at u.0)))
    | inr other ↦ rw other (omega (arith, length-delete k m u.1 (rw other at h)))
  ]
