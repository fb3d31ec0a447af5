-- ===== src/Metrics/Quantiles.antt =====
-- internal/metrics/metrics.go: `Quantile` finds the bucket that its target falls into.
use www_scanner.Prelude.{
  ℕ, zero, suc, ◌+◌, ◌^◌, ◌≤◌, ◌<◌, ◌≡◌, ap, false, Bool-cases, inl, inr, List, [], ◌∷◌, take,
  length, leb, ◌==◌, arith,
}
use www_scanner.Metrics.Histogram.{Histogram, IsFilled, sum_of, n_buckets}
use www_scanner.Metrics.Summaries.{reach, quantile}

-- The bucket that a target falls into: those before it hold fewer samples, and with it they hold enough.
pub record Falls (target cum k : ℕ) (ns : List ℕ) : Type 0 where
  pub inside : k < length ns
  pub too_few : cum + sum_of (take k ns) < target
  pub enough : target ≤ cum + sum_of (take (suc k) ns)

reach_lem :
    (target i cum : ℕ) (ns : List ℕ)
    → cum < target
    → target ≤ cum + sum_of ns
    → (k : ℕ) × (reach target i cum ns ≡ i + suc k) × Falls target cum k ns
unfolding reach
reach_lem target i cum [] lo hi = absurd (omega arith)
reach_lem target i cum (n ∷ ns) lo hi = elim (Bool-cases (leb target (cum + n))) [
  | inl here ↦ (
    zero,
    rw here (omega arith),
    record { inside = omega arith; too_few = omega arith; enough = ground (arith, here) },
  )
  | inr later ↦
      let (k, e, f) = reach_lem target (i + 1) (cum + n) ns (ground (arith, later)) (omega arith) in
      (
        suc k,
        rw later (omega (arith, e)),
        record {
          inside = omega (arith, f.inside);
          too_few = omega (arith, f.too_few);
          enough = omega (arith, f.enough);
        },
      )
]

-- For a target between one and the number of samples, a quantile is the upper end of the bucket that the target falls
-- into: the buckets below hold fewer samples, and with that bucket they hold enough.
pub quantile_lem :
    (target : ℕ → ℕ) (h : Histogram)
    → IsFilled h
    → 0 < target h.count
    → target h.count ≤ h.count
    → (k : ℕ) × (quantile target h ≡ 2 ^ suc k)
      × (k < n_buckets)
      × (sum_of (take k h.buckets) < target h.count)
      × (target h.count ≤ sum_of (take (suc k) h.buckets))
unfolding quantile
quantile_lem target h filled some within =
    let (k, e, f) =
      reach_lem (target h.count) 0 0 h.buckets some (omega (arith, within, filled.all_samples)) in
    let counted : (h.count == 0) ≡ false = ground (arith, some, within) in
    (
      k,
      rw (counted, e) (ap (λ n. 2 ^ n) (omega arith)),
      omega (arith, f.inside, filled.all_buckets),
      omega (arith, f.too_few),
      omega (arith, f.enough),
    )
