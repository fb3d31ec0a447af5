-- ===== src/Report/Exported.antt =====
-- internal/report/report.go: which records the export holds, against the report's own counts.
use www_scanner.Prelude.{
  ℕ, get_or, ◌≢◌, ◌≤◌, ◌<◌, ◌≡◌, true, false, List, [], ◌∷◌, arith, Text, text, eq_text,
}
use www_scanner.Record.{Record, conclusive, www_supported, conclusive_side}
use www_scanner.Record.Status
use www_scanner.Sink.Results.{Results}
use www_scanner.Scan.Recheck
use www_scanner.Report.Summary.{Summary, tally}
use www_scanner.Report.Export.{matches, row, rows}

-- Every record that the recheck filter broken selects is exported under the filter broken.
pub recheck_broken-matches :
    (r : Record) → Recheck.matches Recheck.broken r ≡ true → matches r (text "broken") ≡ true
unfolding matches Recheck.matches eq_text
recheck_broken-matches r h = ground arith

-- An attempted record whose apex answered with a status from 200 to 399 and whose www side stalled without a response
-- is a row of the export under broken; while the recheck filter broken does not select it, and the report's
-- count of broken domains does not grow by it.
pub broken_export_unmeasured :
    (domains : List Text) (res : Results) (i : ℕ) (is : List ℕ) (s : Summary)
    → (res.get i).status ≢ Status.unattempted
    → 200 ≤ (res.get i).apex.http
    → (res.get i).apex.http < 400
    → conclusive_side (res.get i).www ≡ false
    → (res.get i).www.http ≡ 0
    → (rows domains res (text "broken") (i ∷ is)
        ≡ row (get_or domains i []) (res.get i) ∷ rows domains res (text "broken") is)
      × (Recheck.matches Recheck.broken (res.get i) ≡ false)
      × ((tally s (res.get i)).www_broken ≡ s.www_broken)
unfolding matches rows eq_text Recheck.matches www_supported conclusive tally
broken_export_unmeasured domains res i is s attempted lo hi stalled silent =
    (ground arith, ground arith, ground arith)
