-- ===== src/Aggregate/Asn.antt =====
-- exporter/internal/aggregate/asn.go: the top ASNs, the pruning of the totals, and the labels.
-- `sort.Slice` is a parameter; a `map[int64]bool` of chosen ASNs is the list of its keys.
use ntp_server.Base.{
  ℕ, zero, suc, ◌+◌, ◌/◌, ◌%◌, Bool, true, false, not, ◌||◌, List, [], ◌∷◌, ◌++◌, map, take, ltb,
  nat_eqb, GoString, bytes, if◌then◌else◌,
}
use ntp_server.Base.GoMap.{GoMap}

-- `kv`: an ASN with its total
abbrev pub Kv : Type 0
Kv = ℕ × ℕ

-- `strconv.FormatInt(n, 10)` of package `strconv`; `fuel` digits at most
unfoldable pub format_digits : ℕ → ℕ → GoString
format_digits zero n = []
format_digits (suc fuel) n =
    let rest = format_digits fuel (n / 10) in
    if ltb n 10 then (b'0' + n) ∷ [] else rest ++ ((b'0' + n % 10) ∷ [])

unfoldable pub format_int : ℕ → GoString
unfolding format_digits
format_int n = format_digits 20 n

-- `<` on strings
unfoldable pub string_ltb : GoString → GoString → Bool
string_ltb [] [] = false
string_ltb [] (y ∷ ys) = true
string_ltb (x ∷ xs) [] = false
string_ltb (x ∷ xs) (y ∷ ys) = let rest = string_ltb xs ys in if nat_eqb x y then rest else ltb x y

-- the `less` of `topNASNs`
unfoldable pub ranks_before : Kv → Kv → Bool
ranks_before (a, n) (b, m) =
    if nat_eqb n m then string_ltb (format_int a) (format_int b) else ltb m n

-- the `less` of `pruneToLargest`
unfoldable pub counts_more : Kv → Kv → Bool
counts_more (a, n) (b, m) = ltb m n

-- the set that `topNASNs` returns
unfoldable pub is_top : ℕ → List ℕ → Bool
is_top asn [] = false
is_top asn (a ∷ top) = nat_eqb a asn || is_top asn top

-- `foldASN`
unfoldable pub fold_asn : ℕ → Bool → GoString → List ℕ → GoString × GoString
fold_asn asn has_asn as_org top =
    if not has_asn
    then (bytes "unknown", bytes "unknown")
    else if is_top asn top
    then (format_int asn, as_org)
    else (bytes "other", bytes "other")

module _ (sort : (Kv → Kv → Bool) → List Kv → List Kv) where
  -- `topNASNs`
  unfoldable pub top_n_asns : GoMap ℕ ℕ → ℕ → List ℕ
  top_n_asns totals n = map (λ e. e.0) (take n (sort ranks_before totals))

  -- `pruneToLargest`
  unfoldable pub prune_to_largest : GoMap ℕ ℕ → ℕ → GoMap ℕ ℕ
  prune_to_largest totals max = take max (sort counts_more totals)
