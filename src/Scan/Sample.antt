-- ===== src/Scan/Sample.antt =====
-- internal/scan/sample.go: a uniform sample of corpus positions, by Floyd's algorithm.
pub mod Bounds
use www_scanner.Prelude.{
  ℕ, zero, suc, ◌+◌, ◌-◌, Bool, true, false, ◌||◌, List, [], ◌∷◌, range, count_from, leb, ◌==◌,
  if◌then◌else◌,
}

-- `_, taken := chosen[t]`
unfoldable pub taken : ℕ → List ℕ → Bool
taken t [] = false
taken t (x ∷ xs) = x == t || taken t xs

unfoldable pub insert_sorted : ℕ → List ℕ → List ℕ
insert_sorted x [] = x ∷ []
insert_sorted x (y ∷ ys) = let rest = insert_sorted x ys in if leb x y then x ∷ y ∷ ys else y ∷ rest

-- `sort.Ints`. The order in which Go walks the map before it sorts is not specified, and does not
-- matter to the sorted result.
unfoldable pub sort_ints : List ℕ → List ℕ
sort_ints [] = []
sort_ints (x ∷ xs) = insert_sorted x (sort_ints xs)

-- The generator is a parameter: `int_n j b` is the number below `b` that `r.IntN(b)` draws in the
-- round of `j`.
module _ (int_n : ℕ → ℕ → ℕ) where
  -- The value added to `chosen` in the round of `j`.
  unfoldable pub pick : ℕ → List ℕ → ℕ
  unfolding taken
  pick j chosen = let t = int_n j (j + 1) in if taken t chosen then j else t

  -- the loop `for j := n - k; j < n; j++`, over the rounds left
  unfoldable pub floyd : ℕ → ℕ → List ℕ → List ℕ
  unfolding pick
  floyd zero j chosen = chosen
  floyd (suc rounds) j chosen = floyd rounds (j + 1) (pick j chosen ∷ chosen)

  -- `SampleIndices`
  unfoldable pub sample_indices : ℕ → ℕ → List ℕ
  unfolding floyd sort_ints insert_sorted
  sample_indices n k = if leb n k then range n else sort_ints (floyd k (n - k) [])
