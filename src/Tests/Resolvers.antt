-- ===== src/Tests/Resolvers.antt =====
-- Runs of the GeoIP resolver, with a cache of one entry.
use ntp_server.Base.{
  ℕ, ◌≡◌, inl, refl, Option, none, some, List, [], ◌∷◌, GoString, bytes, ◌==◌, string_eq, list_eqb,
  ==_refl, if◌then◌else◌, arith,
}
use ntp_server.Geo.Cache.{Lru, IsLru, no_cache}
use ntp_server.Geo.{
  Result, CountryRecord, AsnRecord, GeoLib, File, Resolver, new_resolver, resolve_uncached,
  check_files, resolve, unknown_result,
}
use ntp_server.Geo.Invisible.{Call, resolve_all, resolve_all-no_cache}
use ntp_server.Geo.Coherent.{Coherent}
use ntp_server.Geo.Concurrent.{
  Shared, Interleaved, begun, check, compute, add, AllNow, Interleaved-Coherent,
}

abbrev One : Type 0
One = Option (GoString × Result)

abbrev find_one : GoString → One → Option Result
find_one key none = none
find_one key (some (k, v)) = if k == key then some v else none

abbrev one_entry : Lru One Result
one_entry = record {
  get = λ key c. (find_one key c, c);
  add = λ key v c. some (key, v);
  purge = λ c. none;
}

one_entry-IsLru : IsLru one_entry
one_entry-IsLru = record {
  get-get = λ k j c. refl;
  get-purge = λ j c. refl;
  get-add_same = λ k v c. ground (arith, ==_refl k);
  get-add_other = λ k j v c h. inl (ground arith);
}

-- a reader is the country that it says of every address
abbrev atlas : GeoLib GoString GoString ℕ
atlas = record {
  parse_addr = λ ip. some ip;
  lookup_country = λ reader ip. some (record { iso_code = reader; continent_code = [] });
  lookup_asn = λ reader ip. some (record { number = reader; organization = [] });
}

abbrev missing : {R : Type 0} → File R
missing = record { mod_time = none; opens = none }

abbrev germany : File GoString
germany = record { mod_time = some 5; opens = some (bytes "DE") }

abbrev client : GoString
client = bytes "192.0.2.7"

abbrev call_at : ℕ → File GoString → Call GoString ℕ
call_at now file = record { now = now; country_file = file; asn_file = missing; ip = client }

-- the file of the countries appears
abbrev calls : List (Call GoString ℕ)
calls = call_at 100 missing ∷ call_at 129 germany ∷ call_at 130 germany ∷ []

resolve_all-no_cache_example :
    resolve_all one_entry atlas calls (new_resolver none)
    ≡ resolve_all no_cache atlas calls (new_resolver tt)
resolve_all-no_cache_example =
    resolve_all-no_cache one_entry atlas one_entry-IsLru calls none (λ ip. refl)

abbrev before : Resolver One GoString ℕ
before = new_resolver none

abbrev opened : Resolver One GoString ℕ
opened = (check_files one_entry atlas 100 germany missing before).0

-- A value is computed and added after the file of the countries is opened.
abbrev said : Result
said = resolve_uncached atlas opened.country.reader opened.asn.reader client

abbrev settled : Shared One GoString ℕ
settled = record { resolver = record opened { cache = some (client, said) }; computed = [] }

settled_run : Interleaved one_entry atlas before settled
unfolding new_resolver
settled_run =
    add client said [] [] (compute client (check 100 germany missing begun (inl refl))) refl

Interleaved-Coherent_example :
    Coherent one_entry atlas settled.resolver × AllNow one_entry atlas settled
unfolding new_resolver
Interleaved-Coherent_example =
    Interleaved-Coherent one_entry atlas one_entry-IsLru (λ ip. refl) settled_run

-- A value that was computed before the file was opened, and is added after it: the cache has
-- another value than the readers.
abbrev late : Resolver One GoString ℕ
late = record opened {
  cache =
      one_entry.add client (resolve_uncached atlas before.country.reader before.asn.reader client)
        opened.cache;
}

stale_run : (one_entry.get client late.cache).0 ≡ some unknown_result
unfolding list_eqb resolve_uncached new_resolver
stale_run = refl

fresh_run : (resolve_uncached atlas late.country.reader late.asn.reader client).country ≡ bytes "DE"
unfolding resolve_uncached check_files new_resolver ntp_server.Geo.reopen_if_needed
    ntp_server.Geo.reopen_one ntp_server.Geo.put_country list_eqb
fresh_run = refl
