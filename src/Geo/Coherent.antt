-- ===== src/Geo/Coherent.antt =====
-- The cache of the resolver of exporter/internal/geoip/geoip.go agrees with its readers.
use ntp_server.Base.{
  ℕ, ◌+◌, ◌≡◌, ◌⊎◌, inl, inr, refl, sym, ap, ◌∙◌, not, ◌||◌, Option, some, nat_eqb, leb, GoString,
  bytes, ◌==◌, string_eq, list_eqb_iff, Bool-cases, Option-cases,
}
use ntp_server.Geo.Cache.{Lru, IsLru}
use ntp_server.Geo.{
  Result, GeoLib, File, Database, Resolver, resolve_uncached, reopen_one, reopen_if_needed,
  check_files, resolve_cached, reopen_check_interval,
}

-- the resolver without its cache
abbrev pub forget : {C R S : Type 0} → Resolver C R S → Resolver Unit R S
forget r = record {
  country = r.country;
  asn = r.asn;
  last_check = r.last_check;
  last_check_set = r.last_check_set;
  cache = tt;
}

module _ {C A R S : Type 0} (lru : Lru C Result) (lib : GeoLib A R S) where
  -- Each entry of the cache is what the readers say now.
  abbrev pub Coherent : Resolver C R S → Type 0
  Coherent r =
      (ip : GoString) (v : Result)
      → (lru.get ip r.cache).0 ≡ some v
      → v ≡ resolve_uncached lib r.country.reader r.asn.reader ip

  module _ (laws : IsLru lru) where
    -- A database that is opened again purges the cache.
    pub reopen_one-purges :
        {D : Type 0} (label : GoString) (file : File D) (db : Database D) (cache : C)
        → (((reopen_one lru label file db cache).0.reader ≡ db.reader)
            × ((reopen_one lru label file db cache).1 ≡ cache))
          ⊎ ((reopen_one lru label file db cache).1 ≡ lru.purge cache)
    unfolding reopen_one
    reopen_one-purges label file db cache = elim (Option-cases file.mod_time) [
      | inl missing ↦ rw (reopen_one, missing) (inl (refl, refl))
      | inr (t, e) ↦ elim (Bool-cases (not db.mtime_set || not (nat_eqb t db.mtime))) [
        | inl changed ↦ rw (reopen_one, e, changed) (inr refl)
        | inr same ↦ rw (reopen_one, e, same) (inl (refl, refl))
      ]
    ]

    reopen_if_needed-Coherent :
        (cf : File R) (af : File S) (r : Resolver C R S)
        → Coherent r
        → Coherent (reopen_if_needed lru lib cf af r).0
    unfolding reopen_if_needed
    reopen_if_needed-Coherent cf af r h ip v found =
        let (country, cache, gauge) = reopen_one lru (bytes "country") cf r.country r.cache in
        elim (reopen_one-purges (bytes "asn") af r.asn cache) [
          | inr purged ↦ let gone = laws.get-purge ip cache in cc
          | inl (same_asn, kept) ↦ elim (reopen_one-purges (bytes "country") cf r.country r.cache) [
            | inr purged ↦ let gone = laws.get-purge ip r.cache in cc
            | inl (same_country, unchanged) ↦ let old = h ip v (cc) in cc
          ]
        ]

    pub check_files-Coherent :
        (now : ℕ) (cf : File R) (af : File S) (r : Resolver C R S)
        → Coherent r
        → Coherent (check_files lru lib now cf af r).0
    unfolding check_files
    check_files-Coherent now cf af r h =
        elim (Bool-cases (not r.last_check_set || leb (r.last_check + reopen_check_interval) now)) [
          | inl due ↦ rw (check_files, due) (reopen_if_needed-Coherent cf af r h)
          | inr early ↦ rw (check_files, early) h
        ]

    -- an entry of the cache after `Add` of what the readers say
    pub added :
        (c : C) (country : Option R) (asn : Option S) (ip j : GoString) (w : Result)
        → ((lru.get j c).0 ≡ some w → w ≡ resolve_uncached lib country asn j)
        → (lru.get j (lru.add ip (resolve_uncached lib country asn ip) c)).0 ≡ some w
        → w ≡ resolve_uncached lib country asn j
    added c country asn ip j w old found = elim (Bool-cases (ip == j)) [
      | inl same ↦
          let e : ip ≡ j = (list_eqb_iff ip j).0 same in
          let new = laws.get-add_same ip (resolve_uncached lib country asn ip) c in
          cc (ap (resolve_uncached lib country asn) e)
      | inr other ↦ elim (laws.get-add_other ip j (resolve_uncached lib country asn ip) c other) [
        | inl gone ↦ cc
        | inr kept ↦ old (cc)
      ]
    ]

    pub resolve_cached-Coherent :
        (ip : GoString) (r : Resolver C R S)
        → Coherent r
        → ((resolve_cached lru lib ip r).0 ≡ resolve_uncached lib r.country.reader r.asn.reader ip)
          × (forget (resolve_cached lru lib ip r).1 ≡ forget r)
          × Coherent (resolve_cached lru lib ip r).1
    unfolding resolve_cached
    resolve_cached-Coherent ip r h = elim (Option-cases (lru.get ip r.cache).0) [
      | inr (v, hit) ↦
          rw (resolve_cached, hit)
            (h ip v hit, refl, λ j w found. h j w (sym (laws.get-get ip j r.cache) ∙ found))
      | inl miss ↦
          rw (resolve_cached, miss)
            (
              refl,
              refl,
              λ j w found.
                  added (lru.get ip r.cache).1 r.country.reader r.asn.reader ip j w
                    (λ e. h j w (sym (laws.get-get ip j r.cache) ∙ e)) found,
            )
    ]
