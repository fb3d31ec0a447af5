-- ===== src/Command/Reports.antt =====
-- cmd/wwwscan/main.go: the metadata that `cmdScan` leaves, and `cmdReport` and `cmdDiff`, which read it back. What they
-- print of a summary or a change is the value here.
use www_scanner.Prelude.{
  ◌/◌, ℕ, Bool, not, ◌&&◌, ◌||◌, List, [], Option, none, some, Result, ok, err, ◌>>=◌, length, ◌==◌,
  if◌then◌else◌, Text, text, eq_text,
}
use www_scanner.Sink.{len}
use www_scanner.Sink.Results.{of_mmap}
use www_scanner.Report.Summary.{Summary, build}
use www_scanner.Report.Export.{write_csv}
use www_scanner.Report.Diff.{Change, diff}
use www_scanner.Metrics.Snapshot.{Snapshot}
use www_scanner.Runmeta.{Meta, Sample}
use www_scanner.Runmeta as Runmeta
use www_scanner.Command.World.{
  CommandError, needs_flag, length_differs, other_corpus, csv_failed, World, Corpus, load_corpus,
  open_results,
}

module _ (Time Float : Type 0) where
  -- the `runmeta.Meta` that `cmdScan` writes, with the elapsed time as its text and whether the validity reaches the floor
  unfoldable pub scan_meta :
      Text
      → Text
      → Corpus
      → Time
      → Time
      → Snapshot Float
      → Text
      → Bool
      → Sample
      → Runmeta.Config
      → Meta Time Float
  unfolding text
  scan_meta mode corpus_path c started ended snap elapsed above_floor sample config = record {
    tool = text "wwwscan";
    mode = mode;
    started = started;
    ended = ended;
    elapsed = elapsed;
    corpus = record {
      path = corpus_path;
      count = length c.domains;
      sha256 = c.manifest.sha256;
      source = c.manifest.source;
      list_id = c.manifest.list_id;
      source_url = c.manifest.source_url;
      description = c.manifest.description;
    };
    sample = sample;
    config = config;
    result = record {
      probed = snap.completed;
      skipped = snap.skipped;
      conclusive = snap.conclusive;
      validity = snap.validity;
      valid_census = above_floor;
      raw_per_sec = snap.rate;
      eff_per_sec = snap.effective_rate;
      mean_latency_ms = snap.mean / 1000;
      stalls = snap.stalls;
    };
  }

  -- the flags of `cmdReport`
  pub record ReportFlags : Type 0 where
    pub corpus_path : Text
    pub results_path : Text
    pub csv : Text
    pub only : Text

  -- What a report shows: where its results come from, the summary, and the rows that are exported, none without `-csv`. The
  -- export comes last, so that its error, which the command then returns, leaves the rest shown.
  pub record Shown : Type 0 where
    pub provenance : Option (Meta Time Float)
    pub summary : Summary
    pub exported : Result CommandError (Option (List (List Text) × ℕ))

  -- the test that binds results to a corpus by its checksum
  unfoldable pub is_foreign : Option (Meta Time Float) → Corpus → Bool
  unfolding eq_text
  is_foreign none c = Bool.false
  is_foreign (some m) c =
      not (eq_text m.corpus.sha256 [])
      && not (eq_text c.manifest.sha256 [])
      && not (eq_text m.corpus.sha256 c.manifest.sha256)

  module _ (w : World) (meta_of : Text → Option (Meta Time Float)) (csv_fails : Bool) where
    -- `cmdReport`; `meta_of` is `runmeta.Load`, and `csv_fails` whether the file of `-csv` cannot be created or written
    unfoldable pub report : ReportFlags → Result CommandError Shown
    unfolding eq_text
    report f =
        if eq_text f.corpus_path [] || eq_text f.results_path []
        then err needs_flag
        else load_corpus w f.corpus_path >>= λ c. open_results w f.results_path >>= λ res.
            if not (len res == length c.domains)
            then err (length_differs (len res) (length c.domains))
            else if is_foreign (meta_of f.results_path) c
            then err other_corpus
            else ok (record {
              provenance = meta_of f.results_path;
              summary = build (length c.domains) (of_mmap res);
              exported =
                  if eq_text f.csv []
                  then ok none
                  else if csv_fails
                  then err csv_failed
                  else ok (some (write_csv c.domains (of_mmap res) f.only));
            })

-- `cmdDiff`, of the paths of the corpus and of the two results
unfoldable pub diff_files : World → Text → Text → Text → Result CommandError (List Change)
unfolding eq_text
diff_files w corpus_path a_path b_path =
    if eq_text corpus_path [] || eq_text a_path [] || eq_text b_path []
    then err needs_flag
    else load_corpus w corpus_path >>= λ c. open_results w a_path >>= λ a.
        open_results w b_path >>= λ b. ok (diff c.domains (of_mmap a) (of_mmap b))
