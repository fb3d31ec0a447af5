-- ===== src/Scan/Pool/Finished.antt =====
-- internal/scan/scan.go: what the sink holds when a run is over.
use www_scanner.Prelude.{
  ℕ, ◌≤◌, ◌<◌, ◌≡◌, inl, inr, refl, sym, ap, ◌∙◌, List, [], ◌∷◌, some, All, length, arith,
}
use www_scanner.Sink.Defs.{Mmap}
use www_scanner.Sink.Laws.{IsOpen}
use www_scanner.Scan.Sample.Bounds.{IsAscending}
use www_scanner.Scan.Pool.{
  Options, Feeder, feeding, offering, leaving, closed_after, Worker, waiting, took, probing, probed,
  stored, ended, gone, Run, start, workers_of, capacity_of, work_of,
}
use www_scanner.Scan.Pool.Accounts.{
  sum_by, has_left, remaining, Reach, start-cases, run-IsAccounted,
}
use www_scanner.Scan.Pool.Progress.{IsOver}
use www_scanner.Scan.Pool.Places.{occurs, unwritten}
use www_scanner.Scan.Pool.Complete.{IsAttempted, unfed, at_large, IsCovered, Reach-IsCovered}
use www_scanner.Scan.Pool.Kept.{start-IsTidy}

has_left-le : (ws : List Worker) → sum_by has_left ws ≤ length ws
has_left-le [] = omega arith
has_left-le (waiting ∷ ws) = omega (arith, has_left-le ws)
has_left-le (took i ∷ ws) = omega (arith, has_left-le ws)
has_left-le (probing i ∷ ws) = omega (arith, has_left-le ws)
has_left-le (probed i r ∷ ws) = omega (arith, has_left-le ws)
has_left-le (stored i r ∷ ws) = omega (arith, has_left-le ws)
has_left-le (ended i r ∷ ws) = omega (arith, has_left-le ws)
has_left-le (gone ∷ ws) = omega (arith, has_left-le ws)

-- A worker that has left has nothing to write.
gone-unwritten :
    (j : ℕ) (ws : List Worker) → sum_by has_left ws ≡ length ws → sum_by (unwritten j) ws ≡ 0
gone-unwritten j [] h = refl
gone-unwritten j (waiting ∷ ws) h = absurd (omega (arith, has_left-le ws))
gone-unwritten j (took i ∷ ws) h = absurd (omega (arith, has_left-le ws))
gone-unwritten j (probing i ∷ ws) h = absurd (omega (arith, has_left-le ws))
gone-unwritten j (probed i r ∷ ws) h = absurd (omega (arith, has_left-le ws))
gone-unwritten j (stored i r ∷ ws) h = absurd (omega (arith, has_left-le ws))
gone-unwritten j (ended i r ∷ ws) h = absurd (omega (arith, has_left-le ws))
gone-unwritten j (gone ∷ ws) h = omega (arith, gone-unwritten j ws (omega arith))

occurs-empty : (j : ℕ) (xs : List ℕ) → length xs ≡ 0 → occurs j xs ≡ 0
occurs-empty j [] h = refl
occurs-empty j (x ∷ xs) h = absurd (omega arith)

-- A feeder that has handed out everything has no position left.
unfed-empty : (j : ℕ) (f : Feeder) → remaining f ≡ 0 → unfed j f ≡ 0
unfed-empty j (feeding rest) h = occurs-empty j rest h
unfed-empty j (offering i rest) h = absurd (omega arith)
unfed-empty j (leaving rest) h = occurs-empty j rest h
unfed-empty j (closed_after rest) h = occurs-empty j rest h

All-occurs : (P : ℕ → Type 0) (xs : List ℕ) → ((j : ℕ) → 1 ≤ occurs j xs → P j) → All P xs
All-occurs P [] h = tt
All-occurs P (x ∷ xs) h = (h x (ground arith), All-occurs P xs (λ j once. h j (omega arith)))

module _ (opts : Options) (domains : ℕ) (out : Mmap) (s : Run)
    (started : start opts domains out ≡ some s) (live : IsOpen out)
    (below : All (λ i. i < out.n) (work_of opts domains))
    (ascending : IsAscending (work_of opts domains)) where
  start-IsCovered : (j : ℕ) → 1 ≤ occurs j (work_of opts domains) → IsCovered j s
  start-IsCovered j h =
      inl (omega (arith, ap (at_large j) (start-cases opts domains out s started)))

  -- When a run is over, and neither the time box nor the context has ended its feed, every position of its work holds a
  -- record that says that it was attempted: it was skipped for that, or a probe's record was written there.
  pub run_complete :
      {k : ℕ} {t : Run}
      → Reach opts (capacity_of opts) s k t
      → IsOver (workers_of opts) (length (work_of opts domains)) t
      → remaining t.feeder ≡ 0
      → All (λ j. IsAttempted j t.shared.out) (work_of opts domains)
  run_complete {t = t} run over all_fed =
      let accounted = run-IsAccounted opts domains out s started run in
      All-occurs (λ j. IsAttempted j t.shared.out) (work_of opts domains)
        (λ j once.
          let covered =
            Reach-IsCovered out.n j run
              (start-IsTidy opts domains out s started live below ascending)
              (start-IsCovered j once) in
          elim covered [
            | inr attempted ↦ attempted
            | inl large ↦ absurd (
                omega (
                  arith,
                  large,
                  gone-unwritten j t.pool (over.all_left ∙ sym accounted.all_workers),
                  unfed-empty j t.feeder all_fed,
                  ap (occurs j) over.nothing_queued,
                ))
          ])
