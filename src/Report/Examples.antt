-- ===== src/Report/Examples.antt =====
-- Tests of the report, and its theorems at concrete results.
use www_scanner.Prelude.{
  ◌≡◌, refl, true, false, List, [], ◌∷◌, length, min, arith, Text, text, ◌==◌, if◌then◌else◌,
}
use www_scanner.Record.{
  Record, Side, zero_record, zero_side, conclusive, conclusive_side, www_supported,
}
use www_scanner.Record.Tls
use www_scanner.Sink.Results.{Results}
use www_scanner.Scan.Recheck
use www_scanner.Report.Summary.{build, tally, empty_summary, broken_reason}
use www_scanner.Report.Consistency.{IsConsistent, build-IsConsistent}
use www_scanner.Report.Cohorts.{build-recheck_indices}
use www_scanner.Report.Export.{rows, row}
use www_scanner.Report.Exported.{broken_export_unmeasured}
use www_scanner.Report.Live.{IsSame, observe_all-build}
use www_scanner.Metrics.Unordered.{Finished, totals, observe_all}
use www_scanner.Metrics.Collector.{new_collector}
use mathlib.Core.List.Perm

abbrev serving_side : Side
serving_side = record {
  resolve = 1;
  rr_types = 1;
  tcp = 1;
  tls = 1;
  http = 200;
  terminal = 1;
  hops = 0;
}

abbrev with_www : Side → Record
with_www s = record zero_record { status = 1; canonical = 2; apex = serving_side; www = s }

abbrev no_www : Record
no_www = with_www (record zero_side { resolve = 2 })

-- www resolves, and its connection hangs
abbrev hanging : Record
hanging = with_www (record zero_side { resolve = 1; tcp = 3 })

abbrev first_run : Results
first_run = record {
  len = 3;
  get = λ i. if i == 0 then no_www else if i == 1 then hanging else with_www serving_side;
}

abbrev second_run : Results
second_run = record { len = 3; get = λ i. with_www serving_side }

abbrev domains : List Text
domains = text "a.org" ∷ text "b.org" ∷ text "c.org" ∷ []

reasons :
    (broken_reason no_www ≡ text "no dns record at all (nxdomain)")
    × (broken_reason (with_www (record serving_side { http = 404 })) ≡ text "serves, returns 404")
    × (broken_reason (with_www (record serving_side { tls = 5 })) ≡ text "tls handshake-fail")
unfolding broken_reason Tls.string
reasons = (refl, refl, refl)

build-IsConsistent_example : IsConsistent (min 3 3) (build 3 first_run)
build-IsConsistent_example = build-IsConsistent 3 first_run

build-recheck_indices_example :
    ((build 3 first_run).www_broken ≡ length (Recheck.recheck_indices first_run Recheck.broken 1))
    × ((build 3 first_run).www_supported_of_serving
        ≡ length (Recheck.recheck_indices first_run Recheck.working 1))
    × ((build 3 first_run).apex_serves
        ≡ length (Recheck.recheck_indices first_run Recheck.serving 1))
build-recheck_indices_example = build-recheck_indices first_run

nominated : Recheck.matches Recheck.broken no_www ≡ true
unfolding Recheck.matches conclusive conclusive_side www_supported
nominated = refl

stalled : conclusive_side hanging.www ≡ false
unfolding conclusive_side
stalled = refl

broken_export_unmeasured_example :
    (rows domains first_run (text "broken") (1 ∷ 2 ∷ [])
      ≡ row (text "b.org") hanging ∷ rows domains first_run (text "broken") (2 ∷ []))
    × (Recheck.matches Recheck.broken hanging ≡ false)
    × ((tally (empty_summary 3 3) hanging).www_broken ≡ 0)
broken_export_unmeasured_example =
    broken_export_unmeasured domains first_run 1 (2 ∷ []) (empty_summary 3 3) (omega arith)
      (omega arith) (omega arith) stalled refl

-- the probes of the first run, by position, and as they finished
abbrev placed : List Finished
placed = (no_www, 5) ∷ (hanging, 900) ∷ (with_www serving_side, 70) ∷ []

abbrev finished : List Finished
finished = (hanging, 900) ∷ (no_www, 5) ∷ (with_www serving_side, 70) ∷ []

observe_all-build_example : IsSame (totals (observe_all finished new_collector)) (build 3 first_run)
observe_all-build_example =
    observe_all-build 3 first_run placed finished refl
      (λ e. absurd (omega arith), (λ e. absurd (omega arith), (λ e. absurd (omega arith), tt)))
      (Perm.swap (no_www, 5) (hanging, 900) ((with_www serving_side, 70) ∷ []))
