-- ===== src/Metrics/Examples.antt =====
-- Tests of internal/metrics, and its theorems at concrete samples.
use www_scanner.Prelude.{ℕ, replicate, take, ◌<◌, ◌≤◌, ◌^◌, suc, ◌≡◌, refl, ◌∷◌, arith}
use www_scanner.Record.{Record, zero_record}
use www_scanner.Record.Status
use www_scanner.Metrics.Histogram.{Histogram, n_buckets, sum_of, floor_log2, bucket_of}
use www_scanner.Metrics.Summaries.{quantile}
use www_scanner.Metrics.Quantiles.{quantile_lem}

octaves : (bucket_of 0 ≡ 0) × (bucket_of 1 ≡ 0) × (bucket_of 1023 ≡ 9) × (bucket_of 1024 ≡ 10)
unfolding bucket_of floor_log2
octaves = (refl, refl, refl, refl)

abbrev aborted_record : Record
aborted_record = record zero_record { status = Status.aborted }

-- three samples in the second octave and one in the tenth
abbrev two_waves : Histogram
two_waves = record {
  buckets = 0 ∷ 3 ∷ 0 ∷ 0 ∷ 0 ∷ 0 ∷ 0 ∷ 0 ∷ 0 ∷ 1 ∷ replicate 14 0;
  sum = 900000;
  count = 4;
}

quantile_example :
    (k : ℕ) × (quantile (λ n. 2) two_waves ≡ 2 ^ suc k)
    × (k < n_buckets)
    × (sum_of (take k two_waves.buckets) < 2)
    × (2 ≤ sum_of (take (suc k) two_waves.buckets))
quantile_example =
    quantile_lem (λ n. 2) two_waves (record { all_buckets = refl; all_samples = refl })
      (omega arith) (omega arith)

quantiles : (quantile (λ n. 2) two_waves ≡ 4) × (quantile (λ n. 4) two_waves ≡ 1024)
unfolding quantile
quantiles = (refl, refl)
