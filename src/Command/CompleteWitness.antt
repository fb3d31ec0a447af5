-- ===== src/Command/CompleteWitness.antt =====
-- A planned scan of the first domain of the corpus, with one worker, from its plan to the end of its run, into a file
-- that holds the record of the second domain.
use native.Mathlib.Nat.{mod-lt}
use www_scanner.Prelude.{
  false, eq_text, true, ◌≡◌, refl, All, [], ◌∷◌, none, ok, some, pos, text, arith,
}
use www_scanner.Prelude.Integers.{positive_part}
use www_scanner.Record.{Record, zero_record}
use www_scanner.Sink.Defs.{len, create, get}
use www_scanner.Sink.Results.{of_mmap}
use www_scanner.Record.Codec.{decode}
use www_scanner.Metrics.Collector.{new_collector, begin_probe, end_probe, observe}
use www_scanner.Scan.Pool.{
  IsProbed, feeding, closed_after, waiting, gone, offers, sends, runs_out, closes, receives, begins,
  probes, stores, ends, observes, leaves, feed, work, store, Run, start, should_skip,
}
use www_scanner.Scan.Pool.Accounts.{Reach, here, next}
use www_scanner.Scan.Pool.Progress.{IsOver}
use www_scanner.Scan.Pool.Complete.{IsAttempted}
use www_scanner.Command.Texts.{dir_of}
use www_scanner.Command.Plan.{
  Flags, file_out, probe_config, Planned, open_out, choose, choose_head, plan,
}
use www_scanner.Command.Witnesses.{
  percent, first_scan, machine, opened, old_sink, three, corpus_step,
}
use www_scanner.Command.Kept.{planned_complete, planned-unscanned}

abbrev one_scan : Flags
one_scan = record first_scan { workers = pos 1; limit = pos 1 }

abbrev after_one : Planned
after_one = record {
  world = opened;
  corpus = three;
  out = file_out old_sink;
  probe = probe_config one_scan;
  opts = record { workers = 1; limit = 1; indices = none; timed = false; resume = true };
  sample = (choose_head percent machine one_scan 3).sample;
  total = 1;
}

one_scan_succeeds : plan percent machine one_scan ≡ ok after_one
unfolding plan text open_out create dir_of choose choose_head eq_text positive_part
one_scan_succeeds = rw corpus_step refl

abbrev hung : Record
hung = record zero_record { status = 2 }

hung-IsProbed : IsProbed hung
hung-IsProbed = record { fits = omega arith; attempted = λ e. absurd (omega arith) }

abbrev begun : Run
begun = record {
  shared = record { buffer = []; closed = false; out = old_sink; col = new_collector };
  feeder = feeding (0 ∷ []);
  pool = waiting ∷ [];
}

begun_lem : start after_one.opts 3 old_sink ≡ some begun
unfolding start len
begun_lem = refl

abbrev over : Run
over = record {
  shared = record {
    buffer = [];
    closed = true;
    out = store old_sink 0 hung;
    col = observe hung 5 (end_probe (begin_probe new_collector));
  };
  feeder = closed_after [];
  pool = gone ∷ [];
}

nothing_skipped : should_skip after_one.opts old_sink 0 ≡ false
unfolding should_skip of_mmap get decode
nothing_skipped = refl

fed : Reach after_one.opts 2 begun 4 (record begun {
  shared = record begun.shared { buffer = 0 ∷ []; closed = true };
  feeder = closed_after [];
})
fed =
    next
      (next (next (next here (feed (offers nothing_skipped))) (feed (sends (omega arith))))
        (feed runs_out))
      (feed closes)

whole_run : Reach after_one.opts 2 begun 11 over
whole_run =
    next
      (next
        (next
          (next
            (next (next (next fed (work [] [] refl (receives refl))) (work [] [] refl begins))
              (work [] [] refl (probes hung hung-IsProbed)))
            (work [] [] refl stores))
          (work [] [] refl ends))
        (work [] [] refl (observes 5 (omega arith))))
      (work [] [] refl (leaves refl refl))

over-IsOver : IsOver 1 1 over
unfolding observe end_probe begin_probe
over-IsOver = record {
  all_left = refl;
  nothing_queued = refl;
  channel_closed = refl;
  nothing_running = refl;
  all_covered = refl;
}

planned_complete_example : All (λ j. IsAttempted j over.shared.out) (0 ∷ [])
planned_complete_example =
    planned_complete percent machine one_scan after_one old_sink one_scan_succeeds refl
      (λ s j b h. mod-lt s h) begun begun_lem whole_run over-IsOver refl

second_kept : get old_sink 1 ≡ ok hung
unfolding get decode
second_kept = refl

-- the scan has written its record, and left the second one
planned-unscanned_example : get over.shared.out 1 ≡ get old_sink 1
planned-unscanned_example =
    planned-unscanned percent machine one_scan after_one old_sink one_scan_succeeds refl
      (λ s j b h. mod-lt s h) begun begun_lem 1 whole_run refl
