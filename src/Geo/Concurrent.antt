-- ===== src/Geo/Concurrent.antt =====
-- Concurrent calls of `Resolve` of exporter/internal/geoip/geoip.go, which take the lock twice
-- and use the cache between: a value is computed under the lock, and added to the cache later.
use ntp_server.Base.{
  ◌≡◌, ◌⊎◌, ◌∙◌, inl, inr, refl, sym, ℕ, Option, none, List, [], ◌∷◌, ◌++◌, GoString, All,
  All-remove,
}
use ntp_server.Geo.Cache.{Lru, IsLru}
use ntp_server.Geo.Coherent.{Coherent, check_files-Coherent, added}
use ntp_server.Geo.{Result, GeoLib, File, Resolver, resolve_uncached, check_files}

-- the resolver, and the values that calls have computed and not yet added
pub record Shared (C R S : Type 0) : Type 0 where
  pub resolver : Resolver C R S
  pub computed : List (GoString × Result)

module _ {C A R S : Type 0} (lru : Lru C Result) (lib : GeoLib A R S) where
  -- A check of the files finds no value that is computed and not yet added, or leaves the readers
  -- as they are.
  abbrev pub IsTimely : Resolver C R S → Shared C R S → Type 0
  IsTimely checked s =
      (s.computed ≡ [])
      ⊎ ((checked.country.reader ≡ s.resolver.country.reader)
          × (checked.asn.reader ≡ s.resolver.asn.reader))

  -- `Interleaved r s`: the steps of any calls, from resolver `r`, lead to `s`, and no database is
  -- opened between the computation of a value and its `Add`. A step is `check_files`, a `Get`, the
  -- computation of a value, or an `Add`.
  pub data Interleaved (r : Resolver C R S) : Shared C R S → Type 0 where
    begun : Interleaved r (record { resolver = r; computed = [] })
    check :
        {s : Shared C R S} (now : ℕ) (cf : File R) (af : File S)
        → Interleaved r s
        → IsTimely (check_files lru lib now cf af s.resolver).0 s
        → Interleaved r (record s { resolver = (check_files lru lib now cf af s.resolver).0 })
    get :
        {s : Shared C R S} (ip : GoString)
        → Interleaved r s
        → Interleaved r
            (record s { resolver = record s.resolver { cache = (lru.get ip s.resolver.cache).1 } })
    compute :
        {s : Shared C R S} (ip : GoString)
        → Interleaved r s
        → Interleaved r (record s {
          computed =
              (ip, resolve_uncached lib s.resolver.country.reader s.resolver.asn.reader ip)
              ∷ s.computed;
        })
    add :
        {s : Shared C R S} (ip : GoString) (v : Result) (before after : List (GoString × Result))
        → Interleaved r s
        → s.computed ≡ before ++ ((ip, v) ∷ after)
        → Interleaved r (record {
          resolver = record s.resolver { cache = lru.add ip v s.resolver.cache };
          computed = before ++ after;
        })

  -- what the readers say now
  abbrev pub IsNow : Option R → Option S → GoString × Result → Type 0
  IsNow country asn (ip, v) = v ≡ resolve_uncached lib country asn ip

  abbrev pub AllNow : Shared C R S → Type 0
  AllNow s = All (IsNow s.resolver.country.reader s.resolver.asn.reader) s.computed

  AllNow-check :
      (s : Shared C R S) (checked : Resolver C R S)
      → IsTimely checked s
      → AllNow s
      → AllNow (record s { resolver = checked })
  AllNow-check s checked (inl none_left) all = rw none_left tt
  AllNow-check s checked (inr (country, asn)) all = rw (country, asn) all

  -- Whatever calls of `Resolve` run at the same time, on an LRU cache that is empty at first: as
  -- long as no database is opened between the computation of a value and its `Add`, every value
  -- in the cache, and every value about to be added, is what the readers that are open now say of
  -- its address.
  pub Interleaved-Coherent :
      {r : Resolver C R S} {s : Shared C R S}
      → IsLru lru
      → ((ip : GoString) → (lru.get ip r.cache).0 ≡ none)
      → Interleaved r s
      → Coherent lru lib s.resolver × AllNow s
  Interleaved-Coherent laws empty begun = (λ ip v found. let gone = empty ip in absurd (cc), tt)
  Interleaved-Coherent laws empty (check {s} now cf af run timely) =
      let (old, all) = Interleaved-Coherent laws empty run in
      (
        check_files-Coherent lru lib laws now cf af s.resolver old,
        AllNow-check s (check_files lru lib now cf af s.resolver).0 timely all,
      )
  Interleaved-Coherent laws empty (get {s} ip run) =
      let (old, all) = Interleaved-Coherent laws empty run in
      (λ j v found. old j v (sym (laws.get-get ip j s.resolver.cache) ∙ found), all)
  Interleaved-Coherent laws empty (compute {s} ip run) =
      let (old, all) = Interleaved-Coherent laws empty run in (old, (refl, all))
  Interleaved-Coherent laws empty (add {s} ip v before after run e) =
      let (old, all) = Interleaved-Coherent laws empty run in
      let country = s.resolver.country.reader in
      let asn = s.resolver.asn.reader in
      let (own, others) = All-remove (IsNow country asn) before (ip, v) after (rw e at all) in
      (
        λ j w found.
            added lru lib laws s.resolver.cache country asn ip j w (old j w) (rw (← own) found),
        others,
      )
