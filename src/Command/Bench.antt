-- ===== src/Command/Bench.antt =====
-- cmd/wwwscan/bench.go: the sweep of `cmdBench`, whose rows take consecutive slices of the corpus, `benchOne` up to its
-- call of `scan.Run`, and `reportFDLimit`.
use www_scanner.Prelude.{
  ℕ, ◌+◌, ◌-◌, ◌*◌, Bool, false, List, [], ◌∷◌, ◌++◌, none, Result, ok, err, panic, ℤ, pos, negsuc,
  length, drop, take, map, ltb, leb, if◌then◌else◌, Text,
}
use www_scanner.Prelude.Integers.{ltb_int, times, positive_part}
use www_scanner.Sink.Null.{Null}
use www_scanner.Scan.Pool.{Options}

-- One configuration, with the domains that it probes: `pool[first : first+count]`.
pub record Row : Type 0 where
  pub workers : ℤ
  pub sockets : ℤ
  pub first : ℕ
  pub count : ℕ

-- How a sweep ends: every row measured, Ctrl-C, the corpus used up after so many domains, or the error of a row.
pub data Ending : Type 0 where
  completed : Ending
  interrupted : Ending
  exhausted : ℕ → Ending
  row_failed : Ending
  crashed : Ending

-- `want`: forty domains for each worker, or what is left
unfoldable pub want_of : ℤ → ℕ → ℤ
unfolding times ltb_int
want_of workers left = if ltb_int (pos left) (times workers 40) then pos left else times workers 40

-- the nested loops over the sockets and the workers, as one list of configurations
unfoldable pub configurations : List ℤ → List ℤ → List (ℤ × ℤ)
configurations [] workers = []
configurations (s ∷ sockets) workers = map (λ w. (s, w)) workers ++ configurations sockets workers

module _ (is_interrupted fails : ℕ → Bool) where
  -- The sweep over the configurations left, with the domains used so far, on a pool of so many: the rows, and the
  -- ending. Whether the context is cancelled before a row and whether the row fails are functions of what is used.
  unfoldable pub sweep : ℕ → ℕ → List (ℤ × ℤ) → List Row × Ending
  sweep pool used [] = ([], completed)
  sweep pool used ((s, w) ∷ rest) =
      if is_interrupted used
      then ([], interrupted)
      else if ltb_int (want_of w (pool - used)) w
      then ([], exhausted used)
      else elim (want_of w (pool - used)) [
        | negsuc n ↦ ([], crashed)
        | pos want ↦
            let row : Row = record { workers = w; sockets = s; first = used; count = want } in
            let later = sweep pool (used + want) rest in
            if fails used then ([], row_failed) else (row ∷ later.0, later.1)
      ]

-- why a benchmark does not start
pub data BenchError : Type 0 where
  past_the_end : ℕ → ℕ → BenchError

-- `pool`: the corpus from the offset on. A slice from a negative offset panics.
unfoldable pub pool_of : List Text → ℤ → Result BenchError (List Text)
pool_of domains (negsuc n) = panic
pool_of domains (pos offset) =
    if leb (length domains) offset
    then err (past_the_end offset (length domains))
    else ok (drop offset domains)

-- the corpus of a row
unfoldable pub slice_of : List Text → Row → List Text
slice_of pool row = take row.count (drop row.first pool)

-- What `benchOne` runs: the options and the null sink.
unfoldable pub bench_run : Row → Bool → Options × Null
unfolding positive_part
bench_run row timed = (
  record {
    workers = positive_part row.workers;
    limit = 0;
    indices = none;
    timed = timed;
    resume = false;
  },
  record { n = row.count },
)

-- the loop of `reportFDLimit`: the largest worker count, at least 0
unfoldable pub max_workers : ℤ → List ℤ → ℤ
max_workers m [] = m
max_workers m (w ∷ ws) = if ltb_int m w then max_workers w ws else max_workers m ws

-- `reportFDLimit`, of the soft limit: the descriptors that are needed, and whether it warns
unfoldable pub fd_warning : ℕ → List ℤ → ℕ × Bool
unfolding max_workers positive_part ltb_int
fd_warning soft workers =
    let need = positive_part (max_workers (pos 0) workers) * 2 + 128 in (need, ltb soft need)
