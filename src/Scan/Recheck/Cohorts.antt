-- ===== src/Scan/Recheck/Cohorts.antt =====
-- internal/scan/recheck.go: how the filters divide the records of a run.
use www_scanner.Prelude.{◌≡◌, ◌≢◌, Bool, true, false, not, ◌||◌, arith}
use www_scanner.Record.{Record}
use www_scanner.Record.Status
use www_scanner.Scan.Recheck.{broken, working, stalled, serving, everything, apex_serves, matches}

-- exactly one of three
abbrev pub one_of_three : Bool → Bool → Bool → Bool
one_of_three true b c = not (b || c)
one_of_three false true c = not c
one_of_three false false c = c

-- Of an attempted record whose apex serves, exactly one of the filters broken, working and stalled
-- holds, and the filters serving and all hold.
pub cohorts_partition :
    (r : Record)
    → r.status ≢ Status.unattempted
    → apex_serves r ≡ true
    → (one_of_three (matches broken r) (matches working r) (matches stalled r) ≡ true)
      × (matches serving r ≡ true)
      × (matches everything r ≡ true)
unfolding matches
cohorts_partition r attempted serves = ground arith
