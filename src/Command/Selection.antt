-- ===== src/Command/Selection.antt =====
-- cmd/wwwscan/main.go: what `cmdScan` hands to a run, and what it records of it.
use www_scanner.Prelude.{
  ℕ, ◌⊎◌, ◌<◌, ◌≡◌, refl, Bool, not, ◌==◌, ◌&&◌, ◌||◌, [], eq_text, if◌then◌else◌, All, Always,
  Always-elim, Always-if, Always-bind, ok, length, ltb, length-count_from, Option-cases, inl, inr,
  arith, Text,
}
use www_scanner.Prelude.Integers.{positive_part}
use www_scanner.Sink.{Mmap, len}
use www_scanner.Sink.Results.{Results, of_mmap}
use www_scanner.Scan.Recheck.{parse_recheck_filter, recheck_indices}
use www_scanner.Scan.Recheck.Bounds.{recheck_indices-IsSelection}
use www_scanner.Scan.Sample.Bounds.{
  IsAscending, sample_indices_lem, count_from-below, count_from-IsAscending,
}
use www_scanner.Scan.Pool.{work_of}
use www_scanner.Command.World.{World, open_results}
use www_scanner.Command.Plan.{
  Flags, Choice, choose_sample, choose_matches, choose_recheck, choose_head, choose, options_of,
}

-- The work of a run over a corpus: ascending positions of it, as many as are announced; the size that is recorded is
-- their number, but for a limit beyond the corpus.
pub record IsSound (f : Flags) (domains : ℕ) (null_sink : Bool) (c : Choice) : Type 0 where
  pub in_corpus : All (λ i. i < domains) (work_of (options_of f null_sink c) domains)
  pub ascending : IsAscending (work_of (options_of f null_sink c) domains)
  pub announced : length (work_of (options_of f null_sink c) domains) ≡ c.total
  pub recorded :
      (c.sample.size ≡ c.total)
      ⊎ ((domains < positive_part f.limit)
          × (c.sample.size ≡ positive_part f.limit)
          × (c.total ≡ domains))

same_length : (s : Mmap) {domains : ℕ} → len s ≡ domains → (of_mmap s).len ≡ domains
unfolding len of_mmap
same_length s e = e

module _ (percent_2 : ℕ → ℕ → Text) (w : World) (f : Flags) (null_sink : Bool) (domains : ℕ) where
  choose_head-IsSound : IsSound f domains null_sink (choose_head percent_2 w f domains)
  unfolding choose_head
  choose_head-IsSound =
      let limit = positive_part f.limit in
      let total : ℕ = if ltb 0 limit && ltb limit domains then limit else domains in
      record {
        in_corpus = count_from-below 0 total domains (ground arith);
        ascending = (count_from-IsAscending 0 total).1;
        announced = length-count_from 0 total;
        recorded = ground arith;
      }

  choose_sample-IsSound :
      ((s j b : ℕ) → 0 < b → w.int_n s j b < b)
      → Always (IsSound f domains null_sink) (choose_sample percent_2 w f domains)
  unfolding choose_sample
  choose_sample-IsSound drawn =
      let k = positive_part f.sample in
      let s = if f.seed == 0 then w.now else f.seed in
      let (size, below, ascending) = sample_indices_lem (w.int_n s) (drawn s) domains k in
      Always-if (IsSound f domains null_sink) (ltb domains k) _ _ (λ beyond. tt)
        (λ within. record {
          in_corpus = below;
          ascending = ascending;
          announced = refl;
          recorded = inl (ground (arith, size, within));
        })

  choose_matches-IsSound :
      (prev : Results) (filter : Text) (stride : ℕ)
      → prev.len ≡ domains
      → Always
          (IsSound f domains null_sink)
          (choose_matches percent_2 w f domains (recheck_indices prev filter stride))
  unfolding choose_matches
  choose_matches-IsSound prev filter stride same =
      let is = recheck_indices prev filter stride in
      let selection = recheck_indices-IsSelection prev filter stride in
      Always-if (IsSound f domains null_sink) (length is == 0) _ _ (λ none_left. tt)
        (λ some_left. record {
          in_corpus = rw (← same) selection.below;
          ascending = selection.ascending;
          announced = refl;
          recorded = inl refl;
        })

  choose_recheck-IsSound :
      Always (IsSound f domains null_sink) (choose_recheck percent_2 w f domains)
  unfolding choose_recheck
  choose_recheck-IsSound =
      Always-bind (IsSound f domains null_sink) (open_results w f.recheck) _ (λ prev opened.
        Always-if (IsSound f domains null_sink) (not (len prev == domains)) _ _ (λ differs. tt)
          (λ same. elim (Option-cases (parse_recheck_filter f.recheck_filter)) [
            | inl bad ↦ rw bad tt
            | inr (filter, good) ↦ rw good (
                choose_matches-IsSound (of_mmap prev) filter (positive_part f.recheck_stride)
                  (same_length prev (ground arith)))
          ]))

  pub choose-IsSound :
      (c : Choice)
      → ((s j b : ℕ) → 0 < b → w.int_n s j b < b)
      → choose percent_2 w f domains ≡ ok c
      → IsSound f domains null_sink c
  unfolding choose
  choose-IsSound c drawn =
      let sound : Choice → Type 0 = IsSound f domains null_sink in
      let sampled = ltb 0 (positive_part f.sample) in
      let limited = ltb 0 (positive_part f.limit) in
      let rechecked = not (eq_text f.recheck []) in
      Always-elim sound _ c (
        Always-if sound (sampled && limited) _ _ (λ e. tt)
          (λ e.
            Always-if sound (rechecked && (sampled || limited)) _ _ (λ e. tt)
              (λ e.
                Always-if sound sampled _ _ (λ e. choose_sample-IsSound drawn)
                  (λ e.
                    Always-if sound rechecked _ _ (λ e. choose_recheck-IsSound)
                      (λ e. choose_head-IsSound)))))
