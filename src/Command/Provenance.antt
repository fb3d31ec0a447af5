-- ===== src/Command/Provenance.antt =====
-- cmd/wwwscan/main.go: a report is bound to the corpus that its results were written against.
use www_scanner.Prelude.{
  ℕ, ◌≡◌, ◌≢◌, refl, sym, ap, ◌∙◌, Bool, true, false, not, ◌||◌, [], Option, none, some, ok,
  Always-elim, Always-if, Always-bind, length, Text, eq_text, eq_text_iff, ◌==◌, arith,
}
use www_scanner.Sink.{Mmap, len}
use www_scanner.Sink.Laws.{IsOpen}
use www_scanner.Sink.Opening.{open_file-opens}
use www_scanner.Sink.Resume.{no_faults}
use www_scanner.Sink.Results.{of_mmap}
use www_scanner.Report.Summary.{build}
use www_scanner.Metrics.Snapshot.{Snapshot}
use www_scanner.Runmeta.{Meta}
use www_scanner.Runmeta as Runmeta
use www_scanner.Command.World.{World, Corpus, load_corpus, open_results}
use www_scanner.Command.Plan.{Flags, file_out, Planned, plan}
use www_scanner.Command.Steps.{plan-WithFile}
use www_scanner.Command.Reports.{scan_meta, ReportFlags, Shown, is_foreign, report}

module _ (Time Float : Type 0) where
  -- What stands behind a report: the corpus and the results that it was made from, one record for each domain, and
  -- checksums that agree if both are known.
  pub record IsBound (w : World) (meta_of : Text → Option (Meta Time Float))
      (f : ReportFlags Time Float) (shown : Shown Time Float) : Type 0 where
    pub corpus : Corpus
    pub results : Mmap
    pub loaded : load_corpus w f.corpus_path ≡ ok corpus
    pub opened : open_results w f.results_path ≡ ok results
    pub one_each : results.n ≡ length corpus.domains
    pub same_corpus :
        (m : Meta Time Float)
        → meta_of f.results_path ≡ some m
        → m.corpus.sha256 ≢ []
        → corpus.manifest.sha256 ≢ []
        → m.corpus.sha256 ≡ corpus.manifest.sha256
    pub summed : shown.summary ≡ build (length corpus.domains) (of_mmap results)

  is_foreign-false :
      (m : Meta Time Float) (c : Corpus)
      → is_foreign Time Float (some m) c ≡ false
      → m.corpus.sha256 ≢ []
      → c.manifest.sha256 ≢ []
      → m.corpus.sha256 ≡ c.manifest.sha256
  unfolding is_foreign
  is_foreign-false m c h a b = ground (
    arith,
    h,
    eq_text_iff m.corpus.sha256 [],
    eq_text_iff c.manifest.sha256 [],
    eq_text_iff m.corpus.sha256 c.manifest.sha256,
  )

  module _ (w : World) (meta_of : Text → Option (Meta Time Float)) (csv_fails : Bool)
      (f : ReportFlags Time Float) where
    -- A report is only shown of results that have one record for each domain of the corpus, and whose recorded checksum, if
    -- both are known, is that of the corpus; it is the summary of these.
    pub report-IsBound :
        (shown : Shown Time Float)
        → report Time Float w meta_of csv_fails f ≡ ok shown
        → IsBound w meta_of f shown
    unfolding report len
    report-IsBound shown =
        let bound : Shown Time Float → Type 0 = IsBound w meta_of f in
        Always-elim bound _ shown (
          Always-if bound (eq_text f.corpus_path [] || eq_text f.results_path []) _ _ (λ _. tt)
            (λ _. Always-bind bound (load_corpus w f.corpus_path) _ (λ c loaded.
              Always-bind bound (open_results w f.results_path) _ (λ res opened.
                Always-if bound (not (len res == length c.domains)) _ _ (λ _. tt)
                  (λ same.
                    Always-if bound (is_foreign Time Float (meta_of f.results_path) c) _ _ (λ _. tt)
                      (λ native. record {
                        corpus = c;
                        results = res;
                        loaded = loaded;
                        opened = opened;
                        one_each = ground (arith, same);
                        same_corpus = λ m e.
                            is_foreign-false m c
                              (ap (λ o. is_foreign Time Float o c) (sym e) ∙ native);
                        summed = refl;
                      }))))))

load_corpus-same :
    (w w' : World) (path : Text)
    → w'.corpus_file path ≡ w.corpus_file path
    → load_corpus w' path ≡ load_corpus w path
unfolding load_corpus
load_corpus-same w w' path e = rw (e, load_corpus) refl

open_results-opens :
    (w : World) (path : Text) (s : Mmap)
    → IsOpen s
    → w.files path ≡ s.file
    → w.faults path ≡ no_faults
    → open_results w path ≡ ok s
unfolding open_results
open_results-opens w path s live holds calm = rw (holds, calm, open_file-opens s live) refl

-- a report with no export
abbrev pub plain_report : (Time Float : Type 0) → Text → Text → ReportFlags Time Float
plain_report Time Float corpus_path results_path = record {
  corpus_path = corpus_path;
  results_path = results_path;
  csv = [];
  only = [];
}

is_foreign-scan_meta :
    (Time Float : Type 0) (f : Flags) (c : Corpus) (t₀ t₁ : Time) (snap : Snapshot Float)
    (elapsed : Text) (above : Bool) (sample : Runmeta.Sample) (config : Runmeta.Config)
    → is_foreign Time Float
        (some (scan_meta Time Float f.mode f.corpus_path c t₀ t₁ snap elapsed above sample config))
        c
      ≡ false
unfolding is_foreign scan_meta
is_foreign-scan_meta Time Float f c t₀ t₁ snap elapsed above sample config =
    ground (arith, eq_text_iff c.manifest.sha256 c.manifest.sha256)

-- What a scan writes, a report accepts: with the corpus file unchanged, the result file left by the run (an open sink of
-- as many records as the scan opened), the metadata of the scan beside it, and no system call failing, `wwwscan report`
-- shows the summary of those records with that metadata.
pub report-plan :
    (Time Float : Type 0) (percent_2 : ℕ → ℕ → Text) (w w' : World) (f : Flags) (p : Planned)
    (s s' : Mmap) (t₀ t₁ : Time) (snap : Snapshot Float) (elapsed : Text) (above : Bool)
    (config : Runmeta.Config)
    → plan percent_2 w f ≡ ok p
    → p.out ≡ file_out s
    → IsOpen s'
    → s'.n ≡ s.n
    → w'.corpus_file f.corpus_path ≡ w.corpus_file f.corpus_path
    → w'.files f.out_path ≡ s'.file
    → w'.faults f.out_path ≡ no_faults
    → let m =
        scan_meta Time Float f.mode f.corpus_path p.corpus t₀ t₁ snap elapsed above p.sample
          config in
      report Time Float w' (λ _. some m) false (plain_report Time Float f.corpus_path f.out_path)
      ≡ ok (record {
        provenance = some m;
        summary = build (length p.corpus.domains) (of_mmap s');
        exported = ok none;
      })
unfolding report len
report-plan Time Float percent_2 w w' f p s s' t₀ t₁ snap elapsed above config planned out live same
      corpus_kept holds calm =
    let t = plan-WithFile percent_2 w f p s planned out in
    let domains = length p.corpus.domains in
    let load : load_corpus w' f.corpus_path ≡ ok p.corpus =
      load_corpus-same w w' f.corpus_path corpus_kept ∙ t.loaded in
    let one_each : (s'.n == domains) ≡ true = ground (arith, same, t.file.over.sized) in
    rw
      (
        t.has_corpus,
        t.has_out,
        load,
        open_results-opens w' f.out_path s' live holds calm,
        one_each,
        is_foreign-scan_meta Time Float f p.corpus t₀ t₁ snap elapsed above p.sample config,
      )
      refl
