-- ===== src/Benchmark/Examples.antt =====
-- The reply of the benchmark's DNS server to a concrete query.
use www_scanner.Prelude.{ℕ, List, ◌≡◌, refl, [], ◌∷◌, none}
use www_scanner.Benchmark.DnsSink.{skip_labels, build_response}

abbrev header : List ℕ
header = 171 ∷ 205 ∷ 1 ∷ 0 ∷ 0 ∷ 1 ∷ 0 ∷ 0 ∷ 0 ∷ 0 ∷ 0 ∷ 0 ∷ []

abbrev labels : List (List ℕ)
labels = (97 ∷ 98 ∷ []) ∷ (99 ∷ []) ∷ []

truncated_query : build_response header ≡ none
unfolding build_response skip_labels
truncated_query = refl
