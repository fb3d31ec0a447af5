-- ===== src/Metrics/Summaries.antt =====
-- internal/metrics/metrics.go: what is read of a collector: `Quantile`, `Mark` and `Steady`, and the sorted counts of
-- `StallSummary` and `formatCounts`. The product of a quantile and the count, rounded up, is a parameter.
use www_scanner.Prelude.{
  ℕ, ◌+◌, ◌^◌, List, [], ◌∷◌, ◌++◌, Option, none, some, leb, ◌==◌, length, if◌then◌else◌, Text,
  text, map,
}
use www_scanner.Prelude.Counts.{Counts, sort_counts}
use www_scanner.Prelude.Decimal.{format_int}
use www_scanner.Prelude.Strings.{join}
use www_scanner.Metrics.Histogram.{Histogram}

-- The loop of `Quantile` over the buckets left, with the index of the first of them and the samples so far: the bucket
-- that reaches the target, or the number of buckets.
unfoldable pub reach : ℕ → ℕ → ℕ → List ℕ → ℕ
reach target i cum [] = i
reach target i cum (n ∷ ns) =
    let rest = reach target (i + 1) (cum + n) ns in if leb target (cum + n) then i + 1 else rest

-- `Quantile`, in milliseconds
unfoldable pub quantile : (ℕ → ℕ) → Histogram → ℕ
unfolding reach
quantile target h = if h.count == 0 then 0 else 2 ^ reach (target h.count) 0 0 h.buckets

-- the snapshot that `Mark` keeps, of whatever `Snapshot` returns
pub record Marked {ℓ} (A : Type ℓ) : Type ℓ where
  pub marked : Option A

-- `Mark`
abbrev pub mark {ℓ} : {A : Type ℓ} → A → Marked A → Marked A
mark now m = record { marked = some now }

-- `Steady`
abbrev pub steady {ℓ} : {A : Type ℓ} → A → Marked A → A
steady now m = elim m.marked [ none ↦ now | some s ↦ s ]

module _ {ℓ} {K : Type ℓ} where
  -- `formatCounts`
  unfoldable pub format_counts : Counts K → (K → Text) → Text
  unfolding sort_counts join text
  format_counts m name =
      join (text "  ") (map (λ p. name (p.0) ++ text "=" ++ format_int p.1) (sort_counts m))

-- `StallSummary`
unfoldable pub stall_summary : Counts Text → Text
unfolding sort_counts join text
stall_summary stalls =
    if length stalls == 0
    then text "none"
    else join (text " ") (map (λ p. p.0 ++ text "=" ++ format_int p.1) (sort_counts stalls))
