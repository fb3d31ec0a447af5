-- ===== src/Report/Diff/Laws.antt =====
-- internal/report/report.go: what `Diff` promises.
use www_scanner.Prelude.{ℕ, ◌≡◌, refl, List, [], ◌∷◌, map, range, min, length, arith, Text}
use www_scanner.Sink.Results.{Results}
use www_scanner.Report.Diff.{Change, changes, diff}

abbrev pub reversed : Change → Change
reversed c = record c { from = c.to; to = c.from }

changes_swap :
    (domains : List Text) (before after : Results) (is : List ℕ)
    → changes domains after before is ≡ map reversed (changes domains before after is)
unfolding changes
changes_swap domains before after [] = refl
changes_swap domains before after (i ∷ is) = ground (arith, changes_swap domains before after is)

-- Exchanging the two runs gives the same changes, in the same order, each the other way round.
pub diff_swap :
    (domains : List Text) (before after : Results)
    → diff domains after before ≡ map reversed (diff domains before after)
unfolding diff
diff_swap domains before after =
    let same : min after.len before.len ≡ min before.len after.len = omega arith in
    rw same
      (changes_swap domains before after (range (min (length domains) (min before.len after.len))))

changes_self : (domains : List Text) (res : Results) (is : List ℕ) → changes domains res res is ≡ []
unfolding changes
changes_self domains res [] = refl
changes_self domains res (i ∷ is) = ground (arith, changes_self domains res is)

-- A run has not moved against itself.
pub diff_self : (domains : List Text) (res : Results) → diff domains res res ≡ []
unfolding diff
diff_self domains res = changes_self domains res _
