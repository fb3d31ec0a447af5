-- ===== src/Report/Cohorts.antt =====
-- internal/report/report.go and internal/scan/recheck.go: the report counts what a recheck selects.
use www_scanner.Prelude.{
  ℕ, ◌+◌, ◌≡◌, refl, ap, sym, ◌∙◌, Bool, List, [], ◌∷◌, map, range, min, length, keep, arith, Text,
  if◌then◌else◌,
}
use www_scanner.Record.{Record}
use www_scanner.Sink.Results.{Results}
use www_scanner.Scan.Recheck.{matches, recheck_indices, broken, working, serving}
use www_scanner.Scan.Recheck.Stride.{recheck_every_match}
use www_scanner.Report.Summary.{Summary, tally, tally_all, empty_summary, build}

abbrev one_if : Bool → ℕ
one_if b = if b then 1 else 0

-- what one round adds to the three cohorts
record Adds (s : Summary) (r : Record) : Type 0 where
  broken_added : (tally s r).www_broken ≡ s.www_broken + one_if (matches broken r)
  working_added :
      (tally s r).www_supported_of_serving ≡ s.www_supported_of_serving + one_if (matches working r)
  serving_added : (tally s r).apex_serves ≡ s.apex_serves + one_if (matches serving r)

tally-Adds : (s : Summary) (r : Record) → Adds s r
unfolding tally matches
tally-Adds s r = ground arith

-- the sizes of the three cohorts among some records
record Cohorts (s t : Summary) (rs : List Record) : Type 0 where
  broken_sized : t.www_broken ≡ s.www_broken + length (keep (matches broken) rs)
  working_sized :
      t.www_supported_of_serving ≡ s.www_supported_of_serving + length (keep (matches working) rs)
  serving_sized : t.apex_serves ≡ s.apex_serves + length (keep (matches serving) rs)

length-keep_cons {ℓ} :
    {A : Type ℓ} (p : A → Bool) (x : A) (xs : List A)
    → length (keep p (x ∷ xs)) ≡ one_if (p x) + length (keep p xs)
unfolding keep
length-keep_cons p x xs = ground arith

tally_all-Cohorts : (s : Summary) (rs : List Record) → Cohorts s (tally_all s rs) rs
unfolding tally_all
tally_all-Cohorts s [] = unfold keep in omega arith
tally_all-Cohorts s (r ∷ rs) =
    let a = tally-Adds s r in
    let c = tally_all-Cohorts (tally s r) rs in
    record {
      broken_sized =
          omega (arith, a.broken_added, c.broken_sized, length-keep_cons (matches broken) r rs);
      working_sized =
          omega (arith, a.working_added, c.working_sized, length-keep_cons (matches working) r rs);
      serving_sized =
          omega (arith, a.serving_added, c.serving_sized, length-keep_cons (matches serving) r rs);
    }

length-keep-map :
    (p : Record → Bool) (g : ℕ → Record) (is : List ℕ)
    → length (keep p (map g is)) ≡ length (keep (λ i. p (g i)) is)
unfolding keep
length-keep-map p g [] = refl
length-keep-map p g (i ∷ is) = ground (arith, length-keep-map p g is)

selected :
    (f : Text) (res : Results)
    → length (keep (matches f) (map res.get (range res.len))) ≡ length (recheck_indices res f 1)
selected f res =
    length-keep-map (matches f) res.get (range res.len)
    ∙ ap length (sym (recheck_every_match res f))

-- Over results as long as the corpus, the report counts as broken, working and serving exactly as
-- many domains as a recheck with stride 1 selects under the filter of that name.
pub build-recheck_indices :
    (res : Results)
    → ((build res.len res).www_broken ≡ length (recheck_indices res broken 1))
      × ((build res.len res).www_supported_of_serving ≡ length (recheck_indices res working 1))
      × ((build res.len res).apex_serves ≡ length (recheck_indices res serving 1))
unfolding build
build-recheck_indices res =
    let c = tally_all-Cohorts (empty_summary res.len res.len) (map res.get (range res.len)) in
    let whole : min res.len res.len ≡ res.len = omega arith in
    rw whole (
      omega (arith, c.broken_sized, selected broken res),
      omega (arith, c.working_sized, selected working res),
      omega (arith, c.serving_sized, selected serving res),
    )
