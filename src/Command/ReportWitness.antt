-- ===== src/Command/ReportWitness.antt =====
-- A report at one concrete machine: on the result file of a first scan of three domains.
use www_scanner.Prelude.{
  ltb, ◌==◌, ◌/◌, ◌*◌, ◌+◌, ℕ, ◌≡◌, refl, true, false, [], none, some, ok, pos, text, eq_text,
}
use www_scanner.Sink.Laws.{IsOpen}
use www_scanner.Sink.Results.{of_mmap}
use www_scanner.Report.Summary.{build}
use www_scanner.Record.{zero_record}
use www_scanner.Prelude.Decimal.{format_int}
use www_scanner.Metrics.Collector.{new_collector, observe}
use www_scanner.Metrics.Snapshot.{Snapshot, Arithmetic, snapshot}
use www_scanner.Runmeta.{Config}
use www_scanner.Command.Reports.{scan_meta, Shown, report}
use www_scanner.Command.Provenance.{IsBound, plain_report, report-plan, report-IsBound}
use www_scanner.Command.Witnesses.{
  percent, new_machine, first_scan, after_first, new_sink, first_scan_succeeds,
}

-- floating point numbers as natural ones, which is enough to run the report
abbrev counting : Arithmetic ℕ
counting = record {
  zero_float = 0;
  quotient = λ m n. m / n;
  per_second = λ n us. n * 1000000 / us;
  times_seconds = λ r us. r * us / 1000000;
  target_50 = λ n. n / 2;
  target_90 = λ n. n * 9 / 10;
  target_99 = λ n. n;
  is_positive = λ r. ltb 0 r;
  below_floor = λ v. v == 0;
  is_idle = λ n w. ltb n w;
  fixed_0 = format_int;
  fixed_1 = format_int;
  percent_0 = format_int;
  percent_1 = format_int;
  percent_wide = format_int;
  percent_five = format_int;
  time_left = λ n r. text "1s";
  bar_length = λ n. n + 1;
}

abbrev snap : Snapshot ℕ
snap = snapshot counting 2000000 (observe zero_record 1500 new_collector)

abbrev config : Config
config = record {
  workers = pos 200;
  resolvers = [];
  dns_sockets = pos 8;
  dns_timeout = text "3s";
  dns_attempts = pos 2;
  http_timeout = text "10s";
  connect_timeout = text "5s";
  wildcard_check = true;
  http_fallback = true;
}

new_sink-IsOpen : IsOpen new_sink
new_sink-IsOpen = record { is_mapped = refl; sized = refl }

abbrev shown : Shown ℕ ℕ
shown = record {
  provenance = some (
      scan_meta ℕ ℕ first_scan.mode first_scan.corpus_path after_first.corpus 0 2 snap (text "2s")
        true after_first.sample config);
  summary = build 3 (of_mmap new_sink);
  exported = ok none;
}

same_file : after_first.world.files first_scan.out_path ≡ new_sink.file
unfolding text eq_text
same_file = refl

report-plan_example :
    report ℕ ℕ after_first.world
      (λ _. shown.provenance)
      false
      (plain_report ℕ ℕ first_scan.corpus_path first_scan.out_path)
    ≡ ok shown
report-plan_example =
    report-plan ℕ ℕ percent new_machine after_first.world first_scan after_first new_sink new_sink 0
      2 snap (text "2s") true config first_scan_succeeds refl new_sink-IsOpen refl refl same_file
      refl

-- the report itself, run
reported :
    report ℕ ℕ after_first.world
      (λ _. shown.provenance)
      false
      (plain_report ℕ ℕ first_scan.corpus_path first_scan.out_path)
    ≡ ok shown
reported =
    report-plan ℕ ℕ percent new_machine after_first.world first_scan after_first new_sink new_sink 0
      2 snap (text "2s") true config first_scan_succeeds refl new_sink-IsOpen refl refl same_file
      refl

report-IsBound_example :
    IsBound ℕ ℕ after_first.world
      (λ _. shown.provenance)
      (plain_report ℕ ℕ first_scan.corpus_path first_scan.out_path)
      shown
report-IsBound_example =
    report-IsBound ℕ ℕ after_first.world (λ _. shown.provenance) false
      (plain_report ℕ ℕ first_scan.corpus_path first_scan.out_path) shown reported
