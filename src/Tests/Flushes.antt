-- ===== src/Tests/Flushes.antt =====
-- Flushes of a collector, and the ranking of a few ASNs.
use ntp_server.Base.{
  ℕ, ◌+◌, ◌-◌, ◌*◌, ◌≤◌, ◌≡◌, refl, some, List, [], ◌∷◌, map, arith, length, leb, Returns,
}
use ntp_server.Base.GoMap.{GoMap}
use ntp_server.Hll.{Floats}
use ntp_server.Aggregate.{new, country_key_eq, asn_totals_max, CountryKey, Event}
use ntp_server.Aggregate.Asn.{Kv, ranks_before, counts_more, top_n_asns, prune_to_largest}
use ntp_server.Aggregate.Ranking.{
  IsBest, IsLower, IsSmaller, top_n_asns-IsBest, prune_to_largest-IsBest,
}
use ntp_server.Aggregate.Handle.{country_key}
use ntp_server.Aggregate.Keeps.{IsValidOf}
use ntp_server.Aggregate.Flush.{FlushReading, flush}
use ntp_server.Aggregate.Flush.Valid.{flush-IsValid}
use ntp_server.Aggregate.Flush.Ledger.{Series, waiting, posted}
use ntp_server.Aggregate.Flush.Total.{Call, frame, flushes, requests_in, run_all, run_all-conserves}
use ntp_server.Aggregate.Flush.Countries.{
  requests_of, responses_of, requested, dropped, flush-countries,
}
use ntp_server.Tests.Sorting.{insertion_sort, insertion_sort-Sorts}
use ntp_server.Tests.Collectors.{identity, nowhere, noon, asked, two_workers, two_workers_lem}

-- whole numbers in the place of floats
abbrev pub whole : Floats ℕ
whole = record {
  of_nat = λ n. n;
  decimal = λ n k. n;
  plus = λ a b. a + b;
  times = λ a b. a * b;
  over = λ a b. a;
  log = λ a. a;
  at_most = leb;
}

abbrev pub late : FlushReading
late = record {
  drops = some 7;
  last_drops = some 4;
  clock = 9;
  wall = 43_200_000_000_000;
  wall_later = 43_200_000_000_000;
}

flush-IsValid_example :
    Returns
      (flush insertion_sort whole late two_workers)
      λ u. IsValidOf 2 u.0 × (length u.0.asn_totals ≤ asn_totals_max)
flush-IsValid_example = flush-IsValid insertion_sort insertion_sort-Sorts whole late two_workers_lem

flush-countries_example : Returns (flush insertion_sort whole late two_workers) λ u.
    (requested (country_key nowhere) u.2 ≡ requests_of (country_key nowhere) two_workers.workers)
    × (dropped (country_key nowhere) u.2
        ≡ requests_of (country_key nowhere) two_workers.workers
          - responses_of (country_key nowhere) two_workers.workers)
flush-countries_example =
    flush-countries ℕ (country_key nowhere) whole insertion_sort insertion_sort-Sorts late
      two_workers_lem

abbrev calls : List Call
calls = frame noon asked ∷ flushes late ∷ frame noon asked ∷ []

run_all-conserves_example :
    Returns (run_all ℕ identity whole insertion_sort insertion_sort-Sorts calls (new 25 2)) λ u.
      IsValidOf 2 u.0 × ((s : Series) → posted s u.1 + waiting s u.0.workers ≡ requests_in calls)
run_all-conserves_example =
    run_all-conserves ℕ identity whole insertion_sort insertion_sort-Sorts 25 2 calls
      (omega arith, (tt, (omega arith, tt)))

abbrev totals : GoMap ℕ ℕ
totals = (64500, 3) ∷ (9, 8) ∷ (10, 8) ∷ (64501, 1) ∷ []

top_n_asns-IsBest_example :
    (kept : List Kv) × (top_n_asns insertion_sort totals 2 ≡ map (λ e. e.0) kept)
    × IsBest IsLower 2 totals kept
top_n_asns-IsBest_example = top_n_asns-IsBest insertion_sort insertion_sort-Sorts totals 2

prune_to_largest-IsBest_example :
    IsBest IsSmaller 3 totals (prune_to_largest insertion_sort totals 3)
prune_to_largest-IsBest_example =
    prune_to_largest-IsBest insertion_sort insertion_sort-Sorts totals 3

-- ties are broken by the decimal strings: "10" comes before "9"
top_run : top_n_asns insertion_sort totals 1 ≡ 10 ∷ []
unfolding top_n_asns insertion_sort ntp_server.Tests.Sorting.place ranks_before
    ntp_server.Aggregate.Asn.string_ltb ntp_server.Aggregate.Asn.format_int
    ntp_server.Aggregate.Asn.format_digits
top_run = refl

-- With equal counts the pruning may drop the ASN that the ranking puts first.
pruned_run :
    top_n_asns insertion_sort (prune_to_largest insertion_sort ((2, 1) ∷ (10, 1) ∷ []) 1) 1 ≡ 2 ∷ []
unfolding top_n_asns prune_to_largest insertion_sort ntp_server.Tests.Sorting.place ranks_before
    counts_more ntp_server.Aggregate.Asn.string_ltb ntp_server.Aggregate.Asn.format_int
    ntp_server.Aggregate.Asn.format_digits
pruned_run = refl
