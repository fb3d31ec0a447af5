-- ===== src/Command/Rerun.antt =====
-- cmd/wwwscan/main.go: which domains a planned scan will skip, by the file that it writes to.
use www_scanner.Prelude.{
  ℕ, ◌≡◌, ◌≢◌, refl, sym, subst, ap, ◌∙◌, true, false, not, ◌&&◌, ◌||◌, [], ok, All, Always,
  Always-elim, Always-if, Always-bind, Always-map_err, length, Text, eq_text, eq_text_iff, ltb,
  ◌==◌, Option-cases, inl, inr, arith,
}
use www_scanner.Prelude.Integers.{positive_part}
use www_scanner.Record.{zero_record}
use www_scanner.Sink.{Mmap, len, get, create, open_file}
use www_scanner.Sink.Opening.{IsOver, open_file-same, create-unattempted}
use www_scanner.Sink.Results.{of_mmap}
use www_scanner.Scan.Recheck.{parse_recheck_filter, recheck_indices, matches}
use www_scanner.Scan.Recheck.Bounds.{recheck_indices-IsSelection, matches-attempted}
use www_scanner.Scan.Sample.Bounds.{All-mono}
use www_scanner.Scan.Pool.{Options, work_of, should_skip}
use www_scanner.Command.World.{World, open_results, bad_results}
use www_scanner.Command.Plan.{
  Flags, file_out, Choice, choose_matches, choose_recheck, choose, Planned, options_of, plan,
}
use www_scanner.Command.Steps.{plan-WithFile}

-- every entry of the work will be skipped
abbrev SkipsAll : Flags → ℕ → Mmap → Choice → Type 0
SkipsAll f domains s c =
    All (λ i. should_skip (options_of f false c) s i ≡ true)
      (work_of (options_of f false c) domains)

skips :
    (opts : Options) (s : Mmap) (filter : Text) (i : ℕ)
    → opts.resume ≡ true
    → matches filter ((of_mmap s).get i) ≡ true
    → should_skip opts s i ≡ true
unfolding should_skip
skips opts s filter i resumes h =
    let tried = matches-attempted filter ((of_mmap s).get i) h in ground (arith, tried, resumes)

module _ (percent_2 : ℕ → ℕ → Text) (w : World) (f : Flags) (resumes : f.resume ≡ true)
    (domains : ℕ) (s : Mmap) (over : IsOver domains (w.files f.recheck) s) where
  choose_matches-SkipsAll :
      (filter : Text) (stride : ℕ)
      → Always
          (SkipsAll f domains s)
          (choose_matches percent_2 w f domains (recheck_indices (of_mmap s) filter stride))
  unfolding choose_matches
  choose_matches-SkipsAll filter stride =
      let is = recheck_indices (of_mmap s) filter stride in
      Always-if (SkipsAll f domains s) (length is == 0) _ _ (λ _. tt)
        (λ _.
          All-mono is (λ i. skips _ s filter i (ground (arith, resumes)))
            (recheck_indices-IsSelection (of_mmap s) filter stride).matching)

  reopened : Always (λ prev. prev ≡ s) (open_results w f.recheck)
  unfolding open_results
  reopened =
      Always-map_err (λ prev. prev ≡ s) bad_results
        (open_file (w.faults f.recheck) (w.files f.recheck))
        (rw (← over.holds) (open_file-same (w.faults f.recheck) s over.live))

  choose_recheck-SkipsAll : Always (SkipsAll f domains s) (choose_recheck percent_2 w f domains)
  unfolding choose_recheck
  choose_recheck-SkipsAll =
      Always-bind (SkipsAll f domains s) (open_results w f.recheck) _ (λ prev e.
        Always-if (SkipsAll f domains s) (not (len prev == domains)) _ _ (λ _. tt)
          (λ _. elim (Option-cases (parse_recheck_filter f.recheck_filter)) [
            | inl bad ↦ rw bad tt
            | inr (filter, good) ↦
                rw (good, Always-elim (λ t. t ≡ s) _ prev reopened e)
                  (choose_matches-SkipsAll filter (positive_part f.recheck_stride))
          ]))

  choose-SkipsAll : f.recheck ≢ [] → Always (SkipsAll f domains s) (choose percent_2 w f domains)
  unfolding choose
  choose-SkipsAll given =
      let skip_all : Choice → Type 0 = SkipsAll f domains s in
      let sampled = ltb 0 (positive_part f.sample) in
      let limited = ltb 0 (positive_part f.limit) in
      let rechecked = not (eq_text f.recheck []) in
      let asked : rechecked ≡ true = ground (arith, eq_text_iff f.recheck []) in
      Always-if skip_all (sampled && limited) _ _ (λ _. tt)
        (λ _.
          Always-if skip_all (rechecked && (sampled || limited)) _ _ (λ _. tt)
            (λ alone.
              Always-if skip_all sampled _ _ (λ e. absurd (ground (arith, asked)))
                (λ _.
                  Always-if skip_all rechecked _ _ (λ _. choose_recheck-SkipsAll)
                    (λ e. absurd (ground (arith, asked))))))

-- A recheck that writes into the file which it selects from, with `-resume`, which is the default, probes nothing: every
-- domain that it selects has a record there, so the run skips it.
pub recheck_in_place-skips :
    (percent_2 : ℕ → ℕ → Text) (w : World) (f : Flags) (p : Planned) (s : Mmap)
    → plan percent_2 w f ≡ ok p
    → p.out ≡ file_out s
    → f.resume ≡ true
    → f.recheck ≢ []
    → f.recheck ≡ f.out_path
    → All (λ i. should_skip p.opts s i ≡ true) (work_of p.opts (length p.corpus.domains))
recheck_in_place-skips percent_2 w f p s planned out resumes given same =
    let t = plan-WithFile percent_2 w f p s planned out in
    let domains = length p.corpus.domains in
    let over : IsOver domains (p.world.files f.recheck) s =
      subst (λ path. IsOver domains (p.world.files path) s) (sym same) t.file.over in
    let all : SkipsAll f domains s t.choice =
      Always-elim (SkipsAll f domains s) _ t.choice
        (choose-SkipsAll percent_2 p.world f resumes domains s over given) t.chosen in
    subst (λ o. All (λ i. should_skip o s i ≡ true) (work_of o domains)) (sym t.opts_of) all

reads_zero : (s : Mmap) (i : ℕ) → get s i ≡ ok zero_record → (of_mmap s).get i ≡ zero_record
unfolding of_mmap
reads_zero s i h = rw (h, of_mmap) refl

new_file-feeds :
    (opts : Options) (s : Mmap) (i : ℕ) → get s i ≡ ok zero_record → should_skip opts s i ≡ false
unfolding should_skip
new_file-feeds opts s i h = let zero = reads_zero s i h in ground (arith, zero)

-- A scan into a new or empty result file skips nothing, whatever its flags.
pub new_file-feeds_all :
    (percent_2 : ℕ → ℕ → Text) (w : World) (f : Flags) (p : Planned) (s : Mmap) (i : ℕ)
    → plan percent_2 w f ≡ ok p
    → p.out ≡ file_out s
    → w.files f.out_path ≡ []
    → should_skip p.opts s i ≡ false
new_file-feeds_all percent_2 w f p s i planned out new =
    let t = plan-WithFile percent_2 w f p s planned out in
    let n = length p.corpus.domains in
    let made : p.world.files f.out_path ≡ (create (w.faults f.out_path) [] n).0 =
      t.file.made ∙ ap (λ content. (create (w.faults f.out_path) content n).0) new in
    new_file-feeds p.opts s i (
      create-unattempted (w.faults f.out_path) n s i
        (subst (λ content. IsOver n content s) made t.file.over))
