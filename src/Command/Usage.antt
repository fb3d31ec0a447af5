-- ===== src/Command/Usage.antt =====
-- cmd/wwwscan/main.go: `usage`, and what `cmdCorpus` prints of the corpus that it wrote.
use www_scanner.Prelude.{not, [], ◌∷◌, ◌++◌, if◌then◌else◌, Text, text, eq_text}
use www_scanner.Prelude.Decimal.{format_int}
use www_scanner.Corpus.Files.{Manifest}

-- `usage`
abbrev pub usage : Text
usage =
    text "wwwscan "
    ++ (226 ∷ 128 ∷ 148 ∷ [])
    ++ text " does www still work?\n\n"
    ++ text "  corpus   materialize a frozen, checksummed domain list\n"
    ++ text "  probe    classify a single domain, human-readable\n"
    ++ text "  scan     run the corpus through the classifier\n"
    ++ text "  bench    sweep worker/socket configurations, time-boxed, a row at a time\n"
    ++ text "  report   aggregate a result file\n"
    ++ text "  diff     compare two result files over the same corpus\n\n"
    ++ text "Run \"wwwscan <command> -h\" for flags.\n"

-- the lines of `cmdCorpus` after the corpus is written
unfoldable pub corpus_lines : Text → Manifest → Text
unfolding eq_text text
corpus_lines out m =
    text "wrote "
    ++ out
    ++ text "\n  domains  "
    ++ format_int m.count
    ++ text "\n  source   "
    ++ m.source
    ++ text "\n"
    ++ (if not (eq_text m.list_id [])
        then text "  list id  " ++ m.list_id ++ text "  (permanent: " ++ m.source_url ++ text ")\n"
        else [])
    ++ text "  sha256   "
    ++ m.sha256
    ++ text "\n"
