-- ===== src/Geo.antt =====
-- exporter/internal/geoip/geoip.go: the resolver. The readers of package `maxminddb`, the files and
-- the cache are parameters. Times are seconds; calls of the gauge are a result.
pub mod Cache
pub mod Coherent
pub mod Invisible
pub mod Concurrent
use ntp_server.Base.{
  ℕ, ◌+◌, ◌-◌, Bool, true, false, not, ◌&&◌, ◌||◌, Option, none, some, List, [], ◌∷◌, ◌++◌, nat_eqb,
  leb, GoString, bytes, ◌==◌, string_eq, if◌then◌else◌,
}
use ntp_server.Aggregate.{GeoResult}
use Cache.{Lru}

abbrev pub reopen_check_interval : ℕ
reopen_check_interval = 30

-- `Result`
pub record Result : Type 0 where
  pub country : GoString
  pub continent : GoString
  pub asn : ℕ
  pub has_asn : Bool
  pub as_org : GoString

-- `countryRecord`
pub record CountryRecord : Type 0 where
  pub iso_code : GoString
  pub continent_code : GoString

-- `asnRecord`
pub record AsnRecord : Type 0 where
  pub number : ℕ
  pub organization : GoString

-- What `resolveUncached` uses of packages `netip` and `maxminddb`: `ParseAddr`, and a `Lookup` with
-- its `Decode`, where none is an error. `A` are addresses, `R` and `S` the readers.
pub record GeoLib (A R S : Type 0) : Type 0 where
  pub parse_addr : GoString → Option A
  pub lookup_country : R → A → Option CountryRecord
  pub lookup_asn : S → A → Option AsnRecord

-- The file of a database: its modification time, none if it cannot be read, and what `Open` returns.
pub record File (R : Type 0) : Type 0 where
  pub mod_time : Option ℕ
  pub opens : Option R

-- The four fields of `Resolver` for one database.
pub record Database (R : Type 0) : Type 0 where
  pub reader : Option R
  pub mtime : ℕ
  pub mtime_set : Bool
  pub miss_warned : Bool

-- `Resolver`; `C` are caches
pub record Resolver (C R S : Type 0) : Type 0 where
  pub country : Database R
  pub asn : Database S
  pub last_check : ℕ
  pub last_check_set : Bool
  pub cache : C

-- a call of `loadedGauge`
abbrev pub Gauge : Type 0
Gauge = GoString × Bool

abbrev pub is_loaded : {R : Type 0} → Option R → Bool
is_loaded none = false
is_loaded (some r) = true

abbrev pub unknown : GoString
unknown = bytes "unknown"

abbrev pub unknown_result : Result
unknown_result = record {
  country = unknown;
  continent = unknown;
  asn = 0;
  has_asn = false;
  as_org = unknown;
}

abbrev pub empty_database : {R : Type 0} → Database R
empty_database = record { reader = none; mtime = 0; mtime_set = false; miss_warned = false }

-- `New`, with the cache of `lru.New`
unfoldable pub new_resolver : {C R S : Type 0} → C → Resolver C R S
new_resolver cache = record {
  country = empty_database;
  asn = empty_database;
  last_check = 0;
  last_check_set = false;
  cache = cache;
}

-- the country of a record, where an empty string is unknown
unfoldable pub put_country : Option CountryRecord → Result → Result
put_country none res = res
put_country (some rec) res = record res {
  country = if rec.iso_code == [] then res.country else rec.iso_code;
  continent = if rec.continent_code == [] then res.continent else rec.continent_code;
}

-- the system of a record, where number 0 is unknown
unfoldable pub put_asn : Option AsnRecord → Result → Result
put_asn none res = res
put_asn (some rec) res = if nat_eqb rec.number 0 then res else record res {
  asn = rec.number;
  has_asn = true;
  as_org = if rec.organization == [] then res.as_org else rec.organization;
}

module _ {A R S : Type 0} (lib : GeoLib A R S) where
  -- `resolveUncached`
  unfoldable pub resolve_uncached : Option R → Option S → GoString → Result
  resolve_uncached country asn ip = elim (lib.parse_addr ip) [
    | none ↦ unknown_result
    | some addr ↦
        let res : Result = elim country [
          | none ↦ unknown_result
          | some reader ↦ put_country (lib.lookup_country reader addr) unknown_result
        ] in
        elim asn [ none ↦ res | some reader ↦ put_asn (lib.lookup_asn reader addr) res ]
  ]

module _ {C : Type 0} (lru : Lru C Result) where
  -- `reopenOne`: the new fields, the cache, and the gauge
  unfoldable pub reopen_one :
      {R : Type 0} → GoString → File R → Database R → C → Database R × C × List Gauge
  reopen_one label file db cache = elim file.mod_time [
    | none ↦ (
      record {
        reader = db.reader;
        mtime = 0;
        mtime_set = false;
        miss_warned = db.miss_warned || not (is_loaded db.reader);
      },
      cache,
      (label, is_loaded db.reader) ∷ [],
    )
    | some new_mtime ↦
        if not db.mtime_set || not (nat_eqb new_mtime db.mtime)
        then (
          record { reader = file.opens; mtime = new_mtime; mtime_set = true; miss_warned = false },
          lru.purge cache,
          (label, is_loaded file.opens) ∷ [],
        )
        else (record db { miss_warned = false }, cache, (label, is_loaded db.reader) ∷ [])
  ]

  module _ {A R S : Type 0} (lib : GeoLib A R S) where
    -- `reopenIfNeeded`
    unfoldable pub reopen_if_needed : File R → File S → Resolver C R S → Resolver C R S × List Gauge
    reopen_if_needed country_file asn_file r =
        let (country, cache, gauge) = reopen_one (bytes "country") country_file r.country r.cache in
        let (asn, cache', gauge') = reopen_one (bytes "asn") asn_file r.asn cache in
        (record r { country = country; asn = asn; cache = cache' }, gauge ++ gauge')

    -- the part of `Resolve` under the lock
    unfoldable pub check_files : ℕ → File R → File S → Resolver C R S → Resolver C R S × List Gauge
    check_files now country_file asn_file r =
        if not r.last_check_set || leb (r.last_check + reopen_check_interval) now
        then (let (next, gauges) = reopen_if_needed country_file asn_file r in
            (record next { last_check = now; last_check_set = true }, gauges))
        else (r, [])

    -- the rest of `Resolve`, from the call of `Get`
    unfoldable pub resolve_cached : GoString → Resolver C R S → Result × Resolver C R S
    resolve_cached ip r =
        let (found, touched) = lru.get ip r.cache in
        elim found [
          | some v ↦ (v, record r { cache = touched })
          | none ↦
              let v = resolve_uncached lib r.country.reader r.asn.reader ip in
              (v, record r { cache = lru.add ip v touched })
        ]

    -- `Resolve`, when no other call runs
    unfoldable pub resolve :
        ℕ → File R → File S → GoString → Resolver C R S → Result × Resolver C R S × List Gauge
    resolve now country_file asn_file ip r =
        let (checked, gauges) = check_files now country_file asn_file r in
        let (result, next) = resolve_cached ip checked in (result, next, gauges)

-- `geoResolverAdapter.Resolve` of exporter/cmd/exporter/main.go
unfoldable pub adapt : Result → GeoResult
adapt res = record {
  country = res.country;
  continent = res.continent;
  asn = res.asn;
  has_asn = res.has_asn;
  as_org = res.as_org;
}
