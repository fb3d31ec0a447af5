-- ===== src/Command/KeptWitness.antt =====
-- The first probe of the first scan: its record is in the result file when the worker goes on.
use native.Mathlib.Nat.{mod-lt}
use www_scanner.Prelude.{
  Option, none, true, text, false, ◌≡◌, refl, List, [], ◌∷◌, some, ok, replicate, arith,
}
use www_scanner.Record.{Record, zero_record}
use www_scanner.Sink.{Error, Faults, get, len, sync}
use www_scanner.Sink.Resume.{no_faults}
use www_scanner.Scan.Finish.{RunError, finish}
use www_scanner.Command.Finish.{ScanEnd, after_run, end_of, after_run-finish}
use www_scanner.Metrics.Collector.{Collector, new_collector, begin_probe}
use www_scanner.Scan.Pool.{
  should_skip, IsProbed, Worker, waiting, probed, feeding, Run, start, feed, work, offers, sends,
  receives, begins, probes, ends,
}
use www_scanner.Scan.Pool.Accounts.{Reach, here, next}
use www_scanner.Scan.Pool.Kept.{after_write}
use www_scanner.Command.Witnesses.{
  percent, first_scan, new_machine, new_sink, after_first, first_scan_succeeds,
}
use www_scanner.Command.Rerun.{new_file-feeds_all}
use www_scanner.Command.Kept.{planned-kept, aborted-skipped}

abbrev others : List Worker
others = replicate 199 waiting

abbrev begun : Run
begun = record {
  shared = record { buffer = []; closed = false; out = new_sink; col = new_collector };
  feeder = feeding (0 ∷ 1 ∷ 2 ∷ []);
  pool = waiting ∷ others;
}

begun_lem : start after_first.opts 3 new_sink ≡ some begun
unfolding start len
begun_lem = refl

abbrev hung : Record
hung = record zero_record { status = 2 }

hung-IsProbed : IsProbed hung
hung-IsProbed = record { fits = omega arith; attempted = λ e. absurd (omega arith) }

abbrev answered : Run
answered = record {
  shared = record { buffer = []; closed = false; out = new_sink; col = begin_probe new_collector };
  feeder = feeding (1 ∷ 2 ∷ []);
  pool = probed 0 hung ∷ others;
}

answered_run : Reach after_first.opts 400 begun 5 answered
answered_run =
    next
      (next
        (next
          (next
            (next here (
              feed (
                offers (
                  new_file-feeds_all percent new_machine first_scan after_first new_sink 0
                    first_scan_succeeds refl refl))))
            (feed (sends (omega arith))))
          (work [] others refl (receives refl)))
        (work [] others refl begins))
      (work [] others refl (probes hung hung-IsProbed))

abbrev written : Run
written = after_write answered [] 0 hung others

planned-kept_example : get written.shared.out 0 ≡ ok hung
planned-kept_example =
    planned-kept percent new_machine first_scan after_first new_sink first_scan_succeeds refl
      (λ s j b h. mod-lt s h) begun begun_lem [] others 0 hung answered_run refl
      (next here (work [] others refl ends))

-- a machine whose final flush fails
abbrev full_disk : Faults
full_disk = record no_faults { msync_fails = true }

flush_fails : sync full_disk answered.shared.out ≡ some Error.msync_failed
unfolding sync
flush_fails = refl

after_run-finish_example :
    let report : Collector × Option RunError → ScanEnd =
      (λ r. after_run (λ c. text "done\n") (λ c. []) none first_scan false true (end_of r)) in
    (report (finish full_disk false answered) ≡ report (finish no_faults true answered))
    × ((report (finish full_disk false answered)).fails ≡ false)
after_run-finish_example =
    after_run-finish (λ c. text "done\n") (λ c. []) none first_scan false true full_disk no_faults
      answered Error.msync_failed flush_fails

-- the next run of the same command
aborted-skipped_example : should_skip after_first.opts written.shared.out 0 ≡ true
aborted-skipped_example =
    aborted-skipped percent new_machine first_scan after_first new_sink first_scan_succeeds refl
      (λ s j b h. mod-lt s h) begun begun_lem [] others 0 hung after_first.opts answered_run refl
      refl (next here (work [] others refl ends)) refl
