-- ===== src/Command/Kept.antt =====
-- cmd/wwwscan/main.go over internal/scan: the result file during the run that `cmdScan` starts.
use www_scanner.Prelude.{ℕ, ◌<◌, ◌≡◌, List, ◌∷◌, ◌++◌, some, ok, true, All, length, Text, arith}
use www_scanner.Record.{Record}
use www_scanner.Sink.{Mmap, get}
use www_scanner.Record.Status
use www_scanner.Sink.Results.{of_mmap}
use www_scanner.Scan.Pool.{
  Options, should_skip, Worker, probed, Run, start, workers_of, capacity_of, work_of,
}
use www_scanner.Scan.Pool.Accounts.{remaining, Reach}
use www_scanner.Scan.Pool.Progress.{IsOver}
use www_scanner.Scan.Pool.Complete.{IsAttempted}
use www_scanner.Scan.Pool.Finished.{run_complete}
use www_scanner.Scan.Pool.Places.{occurs}
use www_scanner.Scan.Pool.Kept.{after_write, written-kept, unscanned-kept}
use www_scanner.Command.World.{World}
use www_scanner.Command.Plan.{Flags, file_out, Planned, plan}
use www_scanner.Command.Started.{plan-starts}

module _ (percent_2 : ℕ → ℕ → Text) (w : World) (f : Flags) (p : Planned) (s : Mmap)
    (planned : plan percent_2 w f ≡ ok p) (to_file : p.out ≡ file_out s)
    (drawn : (seed j b : ℕ) → 0 < b → p.world.int_n seed j b < b) (r : Run)
    (started : start p.opts (length p.corpus.domains) s ≡ some r) where
  -- In the run of a planned scan, whether it samples, rechecks, resumes or takes the whole corpus, a record that a worker
  -- writes into the result file is there, at the position of its domain, for the rest of the run, whatever the order of
  -- the moves of feeder and workers. The generator is assumed to draw below its bound.
  pub planned-kept :
      {k l : ℕ} {t u : Run} (before after : List Worker) (idx : ℕ) (rec : Record)
      → Reach p.opts (capacity_of p.opts) r k t
      → t.pool ≡ before ++ (probed idx rec ∷ after)
      → Reach p.opts (capacity_of p.opts) (after_write t before idx rec after) l u
      → get u.shared.out idx ≡ ok rec
  planned-kept before after idx rec run at rest =
      let (live, _, below, ascending, _) = plan-starts percent_2 w f p s planned to_file drawn in
      written-kept p.opts (length p.corpus.domains) s r started live below ascending before after
        idx rec run at rest

  -- The run of a planned scan leaves the records of all positions that are not in its work as they were in the result
  -- file.
  pub planned-unscanned :
      {k : ℕ} {t : Run} (j : ℕ)
      → Reach p.opts (capacity_of p.opts) r k t
      → occurs j (work_of p.opts (length p.corpus.domains)) ≡ 0
      → get t.shared.out j ≡ get s j
  planned-unscanned j run absent =
      let (live, _, below, ascending, _) = plan-starts percent_2 w f p s planned to_file drawn in
      unscanned-kept p.opts (length p.corpus.domains) s r started live below ascending j run absent

  -- A run of a planned scan with a result file that nothing cuts short is complete: when it is over and its feeder has
  -- nothing left, every position of the work holds a record that says that it was attempted.
  pub planned_complete :
      {k : ℕ} {t : Run}
      → Reach p.opts (capacity_of p.opts) r k t
      → IsOver (workers_of p.opts) (length (work_of p.opts (length p.corpus.domains))) t
      → remaining t.feeder ≡ 0
      → All (λ j. IsAttempted j t.shared.out) (work_of p.opts (length p.corpus.domains))
  planned_complete run over all_fed =
      let (live, _, below, ascending, _) = plan-starts percent_2 w f p s planned to_file drawn in
      run_complete p.opts (length p.corpus.domains) s r started live below ascending run over
        all_fed

  -- An interrupted probe is never tried again: if a worker of a planned scan writes a record that says that its probe was
  -- aborted, every later run with `-resume` skips the position, as it does the complete ones, while the file is as the
  -- scan left it.
  pub aborted-skipped :
      {k l : ℕ} {t u : Run} (before after : List Worker) (idx : ℕ) (rec : Record) (opts : Options)
      → Reach p.opts (capacity_of p.opts) r k t
      → t.pool ≡ before ++ (probed idx rec ∷ after)
      → rec.status ≡ Status.aborted
      → Reach p.opts (capacity_of p.opts) (after_write t before idx rec after) l u
      → opts.resume ≡ true
      → should_skip opts u.shared.out idx ≡ true
  unfolding should_skip of_mmap
  aborted-skipped before after idx rec opts run at aborted rest resumes =
      ground (arith, planned-kept before after idx rec run at rest, aborted, resumes)
