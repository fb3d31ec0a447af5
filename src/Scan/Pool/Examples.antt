-- ===== src/Scan/Pool/Examples.antt =====
-- The theorems of `Run` at a run of one worker over two domains.
use www_scanner.Prelude.{◌+◌, ◌*◌, ◌≤◌, ◌≡◌, ◌⊎◌, refl, false, [], ◌∷◌, none, some}
use www_scanner.Sink.Defs.{Mmap, len}
use www_scanner.Metrics.Collector.{new_collector}
use www_scanner.Scan.Pool.{
  Options, feeding, offering, waiting, Run, offers, feed, start, should_skip,
}
use www_scanner.Scan.Pool.Accounts.{IsAccounted, Reach, here, next, run-IsAccounted}
use www_scanner.Scan.Pool.Ending.{run-ends}
use www_scanner.Scan.Pool.Progress.{CanStep, IsOver, run-progress}

abbrev one_worker : Options
one_worker = record { workers = 1; limit = 0; indices = none; timed = false; resume = false }

abbrev fresh_sink : Mmap
fresh_sink = record { file = []; mapped = false; n = 2 }

abbrev first_run : Run
first_run = record {
  shared = record { buffer = []; closed = false; out = fresh_sink; col = new_collector };
  feeder = feeding (0 ∷ 1 ∷ []);
  pool = waiting ∷ [];
}

abbrev second_run : Run
second_run = record first_run { feeder = offering 0 (1 ∷ []) }

started : start one_worker 2 fresh_sink ≡ some first_run
unfolding start len
started = refl

one_move : Reach one_worker 2 first_run 1 second_run
unfolding should_skip
one_move = next here (feed (offers refl))

run-IsAccounted_example : IsAccounted 1 2 2 second_run
run-IsAccounted_example = run-IsAccounted one_worker 2 fresh_sink first_run started one_move

run-ends_example : 1 ≤ 9 * 2 + 1 + 2
run-ends_example = run-ends one_worker 2 fresh_sink first_run started one_move

run-progress_example : CanStep one_worker 2 second_run ⊎ IsOver 1 2 second_run
run-progress_example = run-progress one_worker 2 fresh_sink first_run started one_move
