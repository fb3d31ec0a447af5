-- ===== src/Runmeta.antt =====
-- internal/runmeta/runmeta.go: what is written down beside a result file, and how a report shows it. Times and
-- floating point are parameters with the texts that `Format` and `%.1f` make of them, and so is JSON.
use www_scanner.Prelude.{
  ℕ, Bool, Option, none, some, List, [], ◌∷◌, ◌++◌, ℤ, length, take, ltb, ◌==◌, if◌then◌else◌, Text,
  text, eq_text, map, true, ◌≡◌, ap, ◌∙◌,
}
use www_scanner.Prelude.Strings.{join}
use www_scanner.Prelude.WriteFile.{FileFaults, write_file, write_file-whole}
use www_scanner.Prelude.Decimal.{format_int}
use www_scanner.Prelude.Integers.{format_signed}
use www_scanner.Prelude.Counts.{Counts}

-- `Path`
unfoldable pub path : Text → Text
unfolding text
path results_path = results_path ++ text ".meta.json"

-- `Corpus`
pub record CorpusMeta : Type 0 where
  pub path : Text
  pub count : ℕ
  pub sha256 : Text
  pub source : Text
  pub list_id : Text
  pub source_url : Text
  pub description : Text

-- `Sample`
pub record Sample : Type 0 where
  pub method : Text
  pub size : ℕ
  pub seed : ℕ
  pub fraction : Text
  pub note : Text

-- `Config`; a duration is the text of it
pub record Config : Type 0 where
  pub workers : ℤ
  pub resolvers : List Text
  pub dns_sockets : ℤ
  pub dns_timeout : Text
  pub dns_attempts : ℤ
  pub http_timeout : Text
  pub connect_timeout : Text
  pub wildcard_check : Bool
  pub http_fallback : Bool

-- `short`
unfoldable pub short : Text → Text
short s = if ltb 12 (length s) then take 12 s else s

-- `formatStalls`, in the order in which the map is walked, which Go leaves open
unfoldable pub format_stalls : Counts Text → Text
unfolding join text
format_stalls m = join (text " ") (map (λ kv. kv.0 ++ text "=" ++ format_int kv.1) m)

-- the dash in the texts of `Describe`, as bytes
abbrev pub em_dash : Text
em_dash = 226 ∷ 128 ∷ 148 ∷ []

module _ (Time Float : Type 0) where
  -- `Result`
  pub record RunResult : Type 0 where
    pub probed : ℕ
    pub skipped : ℕ
    pub conclusive : ℕ
    pub validity : Float
    pub valid_census : Bool
    pub raw_per_sec : Float
    pub eff_per_sec : Float
    pub mean_latency_ms : ℕ
    pub stalls : Counts Text

  -- `Meta`
  pub record Meta : Type 0 where
    pub tool : Text
    pub mode : Text
    pub started : Time
    pub ended : Time
    pub elapsed : Text
    pub corpus : CorpusMeta
    pub sample : Sample
    pub config : Config
    pub result : RunResult

  -- `Write`, of a value that JSON can encode: the file at `Path` afterwards, and whether there was no error
  unfoldable pub write : (Meta → Text) → FileFaults → Meta → Option Text → Option Text × Bool
  write marshal_indent faults m before = write_file faults (marshal_indent m ++ (10 ∷ [])) before

  -- `Load`, of the file at `Path`, if there is one
  unfoldable pub load : (Text → Option Meta) → Option Text → Option Meta
  load unmarshal none = none
  load unmarshal (some b) = unmarshal b

  -- Metadata whose `Write` reports no error is what `Load` returns, where JSON gives it back.
  load-write :
      (marshal_indent : Meta → Text) (unmarshal : Text → Option Meta) (faults : FileFaults)
      (m : Meta) (before : Option Text)
      → unmarshal (marshal_indent m ++ (10 ∷ [])) ≡ some m
      → (write marshal_indent faults m before).1 ≡ true
      → load unmarshal (write marshal_indent faults m before).0 ≡ some m
  unfolding write load
  load-write marshal_indent unmarshal faults m before read succeeds =
      ap (load unmarshal) (write_file-whole faults (marshal_indent m ++ (10 ∷ [])) before succeeds)
      ∙ read

  module _ (format_time : Time → Text) (fixed_1 percent_1 : Float → Text) where
    -- `Describe`
    unfoldable pub describe : Meta → Text
    unfolding text eq_text short
    describe m =
        text "RUN\n"
        ++ text "  when        "
        ++ format_time m.started
        ++ (if eq_text m.elapsed [] then [] else text "  (took " ++ m.elapsed ++ text ")")
        ++ text "\n"
        ++ text "  corpus      "
        ++ m.corpus.path
        ++ text " "
        ++ em_dash
        ++ text " "
        ++ format_int m.corpus.count
        ++ text " domains\n"
        ++ (if eq_text m.corpus.list_id []
            then []
            else text "              "
              ++ m.corpus.source
              ++ text " list "
              ++ m.corpus.list_id
              ++ text ", sha256 "
              ++ short m.corpus.sha256
              ++ text "\n")
        ++ text "  probed      "
        ++ format_int m.sample.size
        ++ text " domains "
        ++ em_dash
        ++ text " "
        ++ m.sample.note
        ++ text "\n"
        ++ (if eq_text m.sample.method (text "random")
            then text "              random sample, "
              ++ m.sample.fraction
              ++ text " of the corpus, seed "
              ++ format_int m.sample.seed
              ++ text " (rerun to reproduce)\n"
            else [])
        ++ text "  validity    "
        ++ percent_1 m.result.validity
        ++ text "% of probes were findings"
        ++ text "  "
        ++ em_dash
        ++ (if m.result.valid_census
            then text " above the 95% census floor\n"
            else text " BELOW the 95% census floor, treat with suspicion\n")
        ++ text "  throughput  "
        ++ fixed_1 m.result.eff_per_sec
        ++ text " effective domains/sec ("
        ++ fixed_1 m.result.raw_per_sec
        ++ text " raw)\n"
        ++ (if length m.result.stalls == 0
            then []
            else text "  stalled on  " ++ format_stalls m.result.stalls ++ text "\n")
        ++ text "  settings    "
        ++ format_signed m.config.workers
        ++ text " workers, "
        ++ format_signed m.config.dns_sockets
        ++ text " dns sockets/server, "
        ++ m.config.http_timeout
        ++ text " http timeout\n"
