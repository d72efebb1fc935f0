-- ===== src/Geo/Invisible.antt =====
-- The cache of the resolver of exporter/internal/geoip/geoip.go does not show in its results.
use ntp_server.Base.{
  ℕ, ◌+◌, ◌≡◌, inl, inr, refl, not, ◌||◌, none, List, [], ◌∷◌, nat_eqb, leb, GoString, bytes,
  string_eq, Bool-cases, Option-cases,
}
use ntp_server.Geo.Cache.{Lru, IsLru, no_cache}
use ntp_server.Geo.{
  Result, GeoLib, File, Database, Resolver, Gauge, new_resolver, resolve_uncached, reopen_one,
  reopen_if_needed, check_files, resolve_cached, resolve, reopen_check_interval,
}
use ntp_server.Geo.Coherent.{forget, Coherent, check_files-Coherent, resolve_cached-Coherent}

-- a call of `Resolve`: the time, the two files, and the address
pub record Call (R S : Type 0) : Type 0 where
  pub now : ℕ
  pub country_file : File R
  pub asn_file : File S
  pub ip : GoString

module _ {C A R S : Type 0} (lru : Lru C Result) (lib : GeoLib A R S) where
  -- a sequence of calls, with the result and the calls of the gauge of each
  unfoldable pub resolve_all : List (Call R S) → Resolver C R S → List (Result × List Gauge)
  resolve_all [] r = []
  resolve_all (c ∷ calls) r =
      let (result, next, gauges) = resolve lru lib c.now c.country_file c.asn_file c.ip r in
      (result, gauges) ∷ resolve_all calls next

  module _ (laws : IsLru lru) where
    reopen_one-no_cache :
        {D : Type 0} (label : GoString) (file : File D) (db : Database D) (cache : C)
        → reopen_one no_cache label file db tt
          ≡ ((reopen_one lru label file db cache).0, tt, (reopen_one lru label file db cache).2)
    unfolding reopen_one
    reopen_one-no_cache label file db cache = elim (Option-cases file.mod_time) [
      | inl missing ↦ rw (reopen_one, missing) refl
      | inr (t, e) ↦ elim (Bool-cases (not db.mtime_set || not (nat_eqb t db.mtime))) [
        | inl changed ↦ rw (reopen_one, e, changed) refl
        | inr same ↦ rw (reopen_one, e, same) refl
      ]
    ]

    check_files-no_cache :
        (now : ℕ) (cf : File R) (af : File S) (r : Resolver C R S)
        → check_files no_cache lib now cf af (forget r)
          ≡ (forget (check_files lru lib now cf af r).0, (check_files lru lib now cf af r).1)
    unfolding check_files reopen_if_needed
    check_files-no_cache now cf af r =
        elim (Bool-cases (not r.last_check_set || leb (r.last_check + reopen_check_interval) now)) [
          | inl due ↦
              let first = reopen_one-no_cache (bytes "country") cf r.country r.cache in
              let second =
                reopen_one-no_cache (bytes "asn") af r.asn
                  (reopen_one lru (bytes "country") cf r.country r.cache).1 in
              rw (check_files, due, first, second) refl
          | inr early ↦ rw (check_files, early) refl
        ]

    resolve_cached-no_cache :
        (ip : GoString) (r : Resolver Unit R S)
        → resolve_cached no_cache lib ip r
          ≡ (resolve_uncached lib r.country.reader r.asn.reader ip, r)
    unfolding resolve_cached
    resolve_cached-no_cache ip r = refl

    -- One call of `Resolve`, with the cache and without it.
    resolve-no_cache :
        (c : Call R S) (r : Resolver C R S)
        → Coherent lru lib r
        → (resolve no_cache lib c.now c.country_file c.asn_file c.ip (forget r) ≡ (
          (resolve lru lib c.now c.country_file c.asn_file c.ip r).0,
          forget (resolve lru lib c.now c.country_file c.asn_file c.ip r).1,
          (resolve lru lib c.now c.country_file c.asn_file c.ip r).2,
        ))
          × Coherent lru lib (resolve lru lib c.now c.country_file c.asn_file c.ip r).1
    unfolding resolve
    resolve-no_cache c r h =
        let checked = (check_files lru lib c.now c.country_file c.asn_file r).0 in
        let (same, next, kept) =
          resolve_cached-Coherent lru lib laws c.ip checked
            (check_files-Coherent lru lib laws c.now c.country_file c.asn_file r h) in
        (
          rw
              (
                resolve,
                check_files-no_cache c.now c.country_file c.asn_file r,
                resolve_cached-no_cache c.ip (forget checked),
                same,
                next,
              )
              refl,
          kept,
        )

module _ {C A R S : Type 0} (lru : Lru C Result) (lib : GeoLib A R S) (laws : IsLru lru) where
  resolve_all-forget :
      (calls : List (Call R S)) (r : Resolver C R S)
      → Coherent lru lib r
      → resolve_all lru lib calls r ≡ resolve_all no_cache lib calls (forget r)
  unfolding resolve_all
  resolve_all-forget [] r h = refl
  resolve_all-forget (c ∷ calls) r h =
      let (same, kept) = resolve-no_cache lru lib laws c r h in
      let next = (resolve lru lib c.now c.country_file c.asn_file c.ip r).1 in
      rw same (rw (resolve_all-forget calls next kept) refl)

  -- For calls of `Resolve` one after the other, at any times and whatever becomes of the files,
  -- an LRU cache that is empty at first changes neither the results nor the calls of the gauge:
  -- they are those of a resolver that looks each address up in the readers it has then.
  pub resolve_all-no_cache :
      (calls : List (Call R S)) (cache : C)
      → ((ip : GoString) → (lru.get ip cache).0 ≡ none)
      → resolve_all lru lib calls (new_resolver cache)
        ≡ resolve_all no_cache lib calls (new_resolver tt)
  unfolding new_resolver
  resolve_all-no_cache calls cache empty =
      resolve_all-forget calls (new_resolver cache) (λ ip v found. let gone = empty ip in cc)
