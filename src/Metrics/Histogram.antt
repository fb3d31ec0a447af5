-- ===== src/Metrics/Histogram.antt =====
-- internal/metrics/metrics.go: `Histogram.Observe`, `bucketOf` and `Mean`. A duration is its microseconds;
-- a negative one counts as zero in the code, which is what it is here.
use native.Mathlib.Nat.{two-pow-succ, pow-le-pow_right}
use www_scanner.Prelude.{
  ℕ, zero, suc, ◌+◌, ◌/◌, ◌^◌, ◌≤◌, ◌<◌, ◌≡◌, refl, ◌∙◌, ◌⊎◌, List, [], ◌∷◌, length, replicate, leb,
  ltb, if◌then◌else◌, ◌==◌, dec_lt, arith,
}

abbrev pub n_buckets : ℕ
n_buckets = 24

pub record Histogram : Type 0 where
  pub buckets : List ℕ
  pub sum : ℕ
  pub count : ℕ

abbrev pub empty_histogram : Histogram
empty_histogram = record { buckets = replicate n_buckets 0; sum = 0; count = 0 }

-- `math.Floor(math.Log2(float64(n)))` for 0 < n < 2 ^ fuel
unfoldable pub floor_log2 : ℕ → ℕ → ℕ
floor_log2 zero n = 0
floor_log2 (suc fuel) n = let rest = floor_log2 fuel (n / 2) in if ltb n 2 then 0 else suc rest

-- `bucketOf`, of milliseconds, which fit an int64
unfoldable pub bucket_of : ℕ → ℕ
bucket_of ms =
    if ltb ms 1 then 0 else (let b = floor_log2 62 ms in if leb n_buckets b then 23 else b)

-- `buckets[i].Add(1)`
abbrev pub bump : ℕ → List ℕ → List ℕ
bump i [] = []
bump zero (n ∷ ns) = suc n ∷ ns
bump (suc i) (n ∷ ns) = n ∷ bump i ns

abbrev pub sum_of : List ℕ → ℕ
sum_of [] = 0
sum_of (n ∷ ns) = n + sum_of ns

-- `Observe`
unfoldable pub observe : ℕ → Histogram → Histogram
observe us h = record {
  buckets = bump (bucket_of (us / 1000)) h.buckets;
  sum = h.sum + us;
  count = h.count + 1;
}

-- `Mean`, in microseconds
unfoldable pub mean : Histogram → ℕ
mean h = if h.count == 0 then 0 else h.sum / h.count

floor_log2-small : (fuel n : ℕ) → n < 2 → floor_log2 (suc fuel) n ≡ 0
unfolding floor_log2
floor_log2-small fuel n h = ground arith

floor_log2-big : (fuel n : ℕ) → 2 ≤ n → floor_log2 (suc fuel) n ≡ suc (floor_log2 fuel (n / 2))
unfolding floor_log2
floor_log2-big fuel n h = ground arith

floor_log2_lem :
    (fuel n : ℕ)
    → 0 < n
    → n < 2 ^ suc fuel
    → (2 ^ floor_log2 fuel n ≤ n) × (n < 2 ^ suc (floor_log2 fuel n))
unfolding floor_log2
floor_log2_lem zero n h b = (omega arith, b)
floor_log2_lem (suc fuel) n h b = elim (dec_lt n 2) [
  | yes small ↦ rw (floor_log2-small fuel n small) (h, small)
  | no big ↦
      let (lo, hi) =
        floor_log2_lem fuel (n / 2) (omega arith) (omega (arith, two-pow-succ (suc fuel))) in
      let k = floor_log2 fuel (n / 2) in
      rw (floor_log2-big fuel n (omega arith))
        (omega (arith, two-pow-succ k), omega (arith, two-pow-succ (suc k)))
]

floor_log2-le : (fuel n : ℕ) → floor_log2 fuel n ≤ fuel
unfolding floor_log2
floor_log2-le zero n = omega arith
floor_log2-le (suc fuel) n = ground (arith, floor_log2-le fuel (n / 2))

-- The bucket of a duration is the octave that it lies in, except that the first one also takes what is below a
-- millisecond and the last one all that is above: bucket i is for [2 ^ i, 2 ^ (i + 1)) milliseconds.
pub bucket_of_lem :
    (ms : ℕ)
    → ms < 2 ^ 63
    → (bucket_of ms < n_buckets)
      × ((ms ≡ 0) ⊎ (2 ^ bucket_of ms ≤ ms))
      × ((bucket_of ms ≡ 23) ⊎ (ms < 2 ^ suc (bucket_of ms)))
unfolding bucket_of
bucket_of_lem ms h = elim (dec_lt ms 1) [
  | yes none_yet ↦ ground arith
  | no some_ms ↦
      let (lo, hi) = floor_log2_lem 62 ms (omega arith) h in
      let above : 24 ≤ floor_log2 62 ms → 2 ^ 23 ≤ 2 ^ floor_log2 62 ms = λ b.
        pow-le-pow_right {n = 2} (omega arith) {i = 23} {j = floor_log2 62 ms} (omega (arith, b)) in
      ground (arith, lo, hi, above)
]

total-bump : (i : ℕ) (ns : List ℕ) → i < length ns → sum_of (bump i ns) ≡ sum_of ns + 1
total-bump i [] h = absurd (omega arith)
total-bump zero (n ∷ ns) h = omega arith
total-bump (suc i) (n ∷ ns) h = omega (arith, total-bump i ns (omega arith))

length-bump : (i : ℕ) (ns : List ℕ) → length (bump i ns) ≡ length ns
length-bump i [] = refl
length-bump zero (n ∷ ns) = refl
length-bump (suc i) (n ∷ ns) = omega (arith, length-bump i ns)

-- every sample is in one bucket
pub record IsFilled (h : Histogram) : Type 0 where
  pub all_buckets : length h.buckets ≡ n_buckets
  pub all_samples : sum_of h.buckets ≡ h.count

pub observe-IsFilled : (us : ℕ) (h : Histogram) → us < 2 ^ 63 → IsFilled h → IsFilled (observe us h)
unfolding observe
observe-IsFilled us h b f =
    let (inside, _, _) = bucket_of_lem (us / 1000) (omega arith) in
    let i = bucket_of (us / 1000) in
    record {
      all_buckets = length-bump i h.buckets ∙ f.all_buckets;
      all_samples =
          omega (arith, total-bump i h.buckets (omega (arith, f.all_buckets)), f.all_samples);
    }
