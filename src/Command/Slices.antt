-- ===== src/Command/Slices.antt =====
-- cmd/wwwscan/bench.go: every row of a sweep gets positions of the pool of its own.
use www_scanner.Prelude.{
  ℕ, ◌+◌, ◌-◌, ◌*◌, ◌≤◌, ◌≡◌, ◌≢◌, refl, sym, ap, ◌∙◌, Bool, true, List, [], ◌∷◌, ◌++◌, ℤ, pos,
  negsuc, length, take, drop, take-add, drop-drop, ltb, min, if_cases, arith, Text,
}
use www_scanner.Prelude.Integers.{times, ltb_int}
use www_scanner.Command.Bench.{
  Row, Ending, interrupted, exhausted, row_failed, crashed, want_of, sweep, slice_of,
}

-- Rows from a place in the pool on: each begins where the one before ended, within the pool, and has at least as many
-- domains as workers and at most forty for each.
pub data IsConsecutive (pool : ℕ) : ℕ → List Row → Type 0 where
  none_left : {used : ℕ} → IsConsecutive pool used []
  next_row :
      {used count workers : ℕ} {s : ℤ} {rows : List Row}
      → used + count ≤ pool
      → workers ≤ count
      → count ≤ workers * 40
      → IsConsecutive pool (used + count) rows
      → IsConsecutive pool used
          (record { workers = pos workers; sockets = s; first = used; count = count } ∷ rows)

want_of-pos : (k left : ℕ) → want_of (pos k) left ≡ pos (min (k * 40) left)
unfolding want_of times ltb_int
want_of-pos k left = ground arith

want_of-negsuc : (k left : ℕ) → want_of (negsuc k) left ≡ negsuc (k * 40 + 39)
unfolding want_of times ltb_int
want_of-negsuc k left = ap negsuc (omega arith)

-- the rows and the ending of a sweep from a place on
abbrev IsFair : ℕ → ℕ → List Row × Ending → Type 0
IsFair pool used r = IsConsecutive pool used r.0 × (r.1 ≢ crashed)

stops-IsFair : (pool used : ℕ) (e : Ending) → e ≢ crashed → IsFair pool used ([], e)
stops-IsFair pool used e h = (none_left, h)

module _ (is_interrupted fails : ℕ → Bool) (pool : ℕ) where
  -- Every sweep gives its rows positions of the pool of their own, in order, at least as many as the row has workers and
  -- at most forty for each; and it never slices the pool out of range, also not for negative worker counts.
  pub sweep-IsConsecutive :
      (used : ℕ) (configs : List (ℤ × ℤ))
      → used ≤ pool
      → IsConsecutive pool used (sweep is_interrupted fails pool used configs).0
        × ((sweep is_interrupted fails pool used configs).1 ≢ crashed)
  unfolding sweep ltb_int
  sweep-IsConsecutive used [] h = (none_left, λ e. cc)
  sweep-IsConsecutive used ((s, negsuc k) ∷ rest) h =
      let fewer : ltb k (k * 40 + 39) ≡ true = ground arith in
      rw (want_of-negsuc k (pool - used), fewer)
        (if_cases (IsFair pool used) (is_interrupted used) _ _
          (λ _. stops-IsFair pool used interrupted (λ e. cc))
          (λ _. stops-IsFair pool used (exhausted used) (λ e. cc)))
  sweep-IsConsecutive used ((s, pos k) ∷ rest) h =
      let want = min (k * 40) (pool - used) in
      rw (want_of-pos k (pool - used)) (
        if_cases (IsFair pool used) (is_interrupted used) _ _
          (λ _. stops-IsFair pool used interrupted (λ e. cc))
          (λ _.
            if_cases (IsFair pool used) (ltb want k) _ _
              (λ _. stops-IsFair pool used (exhausted used) (λ e. cc))
              (λ enough.
                if_cases (IsFair pool used) (fails used) _ _
                  (λ _. stops-IsFair pool used row_failed (λ e. cc))
                  (λ _.
                    let later = sweep-IsConsecutive (used + want) rest (ground arith) in
                    (next_row (ground arith) (ground arith) (ground arith) later.0, later.1)))))

-- the domains of the rows, one row after the other
abbrev pub probed_by : List Text → List Row → List Text
probed_by pool [] = []
probed_by pool (row ∷ rows) = slice_of pool row ++ probed_by pool rows

-- how many they are
abbrev pub total_count : List Row → ℕ
total_count [] = 0
total_count (row ∷ rows) = row.count + total_count rows

consecutive_slices :
    (pool : List Text) (used : ℕ) (rows : List Row)
    → IsConsecutive (length pool) used rows
    → probed_by pool rows ≡ take (total_count rows) (drop used pool)
unfolding slice_of
consecutive_slices pool used [] none_left = refl
consecutive_slices pool used (row ∷ rows) (next_row {count = n} fits few many rest) =
    ap (λ l. take n (drop used pool) ++ l)
      (consecutive_slices pool (used + n) rows rest
        ∙ ap (take (total_count rows)) (sym (drop-drop used n pool)))
    ∙ sym (take-add n (total_count rows) (drop used pool))

total_count-le :
    (pool used : ℕ) (rows : List Row)
    → used ≤ pool
    → IsConsecutive pool used rows
    → used + total_count rows ≤ pool
total_count-le pool used [] h none_left = omega arith
total_count-le pool used (row ∷ rows) h (next_row {count = n} fits few many rest) =
    omega (arith, total_count-le pool (used + n) rows fits rest)

-- The slices of the pool that the rows of a sweep probe are, one after the other, a prefix of the pool: no position is
-- left out in between, and none is in two rows.
pub sweep-slices :
    (is_interrupted fails : ℕ → Bool) (pool : List Text) (configs : List (ℤ × ℤ))
    → let rows = (sweep is_interrupted fails (length pool) 0 configs).0 in
      (probed_by pool rows ≡ take (total_count rows) pool) × (total_count rows ≤ length pool)
sweep-slices is_interrupted fails pool configs =
    let fair = (sweep-IsConsecutive is_interrupted fails (length pool) 0 configs (omega arith)).0 in
    (
      consecutive_slices pool 0 _ fair,
      omega (arith, total_count-le (length pool) 0 _ (omega arith) fair),
    )
