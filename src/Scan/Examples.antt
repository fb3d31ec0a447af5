-- ===== src/Scan/Examples.antt =====
-- Tests of the selections of internal/scan, and their theorems at concrete runs.
use www_scanner.Prelude.{
  ℕ, ◌-◌, ◌*◌, ◌<◌, ◌≡◌, refl, [], ◌∷◌, none, some, All, length, get_elem?, min, arith, text, ◌==◌,
  if◌then◌else◌,
}
use www_scanner.Record.{
  Record, Side, zero_record, zero_side, conclusive, conclusive_side, www_supported,
}
use www_scanner.Sink.Results.{Results}
use www_scanner.Scan.Recheck.{matches, recheck_indices, parse_recheck_filter, broken}
use www_scanner.Scan.Recheck.Stride.{get_elem?-recheck_indices}
use www_scanner.Scan.Sample.{sample_indices}
use www_scanner.Scan.Sample.Bounds.{IsAscending, sample_indices_lem}

abbrev serving_side : Side
serving_side = record {
  resolve = 1;
  rr_types = 1;
  tcp = 1;
  tls = 1;
  http = 200;
  terminal = 1;
  hops = 0;
}

-- the apex serves, and www does not exist
abbrev no_www : Record
no_www = record zero_record {
  status = 1;
  apex = serving_side;
  www = record zero_side { resolve = 2 };
}

-- eight records, all but two of them with no www
abbrev previous : Results
previous = record {
  len = 8;
  get = λ i. if i == 2 then zero_record else if i == 5 then zero_record else no_www;
}

every_other : recheck_indices previous broken 2 ≡ 0 ∷ 3 ∷ 6 ∷ []
unfolding recheck_indices matches conclusive conclusive_side www_supported
every_other = refl

parsed :
    (parse_recheck_filter (text " Broken ") ≡ some broken)
    × (parse_recheck_filter (text "brokn") ≡ none)
unfolding parse_recheck_filter text
parsed = (refl, refl)

get_elem?-recheck_indices_example :
    get_elem? (recheck_indices previous broken 2) 1
    ≡ get_elem? (recheck_indices previous broken 1) (1 * 2)
get_elem?-recheck_indices_example = get_elem?-recheck_indices previous broken 2 1 (omega arith)

-- a generator that always draws the largest value below its bound
abbrev largest : ℕ → ℕ → ℕ
largest j b = b - 1

sampled : sample_indices largest 10 3 ≡ 7 ∷ 8 ∷ 9 ∷ []
unfolding sample_indices
sampled = refl

sample_indices_example :
    (length (sample_indices largest 10 3) ≡ min 3 10)
    × All (λ i. i < 10) (sample_indices largest 10 3)
    × IsAscending (sample_indices largest 10 3)
sample_indices_example = sample_indices_lem largest (λ j b h. omega arith) 10 3
