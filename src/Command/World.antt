-- ===== src/Command/World.antt =====
-- cmd/wwwscan/main.go: what the commands find on the machine, and why they stop.
use www_scanner.Prelude.{
  ℕ, Bool, List, [], Option, none, some, Result, ok, err, map_err, ◌>>=◌, Text, if◌then◌else◌,
  eq_text,
}
use www_scanner.Sink.{Faults, Mmap}
use www_scanner.Sink.Defs as Sinks
use www_scanner.Corpus.Files.{Manifest}
use www_scanner.Corpus.Files as Files

pub data CommandError : Type 0 where
  needs_flag : CommandError
  needs_out : CommandError
  throughput_writes : CommandError
  unknown_mode : Text → CommandError
  no_corpus : CommandError
  bad_corpus : Files.Error → CommandError
  mkdir_failed : CommandError
  bad_results : Sinks.Error → CommandError
  resolver_failed : CommandError
  sample_and_limit : CommandError
  recheck_and_other : CommandError
  sample_exceeds : ℕ → ℕ → CommandError
  length_differs : ℕ → ℕ → CommandError
  bad_filter : Text → CommandError
  no_match : CommandError
  other_corpus : CommandError
  csv_failed : CommandError

-- The machine: the corpus files with their manifests, the content of the result files (empty for a file that does not
-- exist), what the operating system refuses, whether `resolve.New` fails, the clock, and the seeded generator.
pub record World : Type 0 where
  pub corpus_file : Text → Option (Text × Option Manifest)
  pub files : Text → List ℕ
  pub faults : Text → Faults
  pub mkdir_fails : Text → Bool
  pub resolver_fails : Bool
  pub now : ℕ
  pub int_n : ℕ → ℕ → ℕ → ℕ

-- `corpus.Corpus`, without its path
pub record Corpus : Type 0 where
  pub domains : List Text
  pub manifest : Manifest

-- the zero value of a manifest
abbrev pub no_manifest : Manifest
no_manifest = record {
  source = [];
  source_url = [];
  list_id = [];
  fetched = 0;
  count = 0;
  sha256 = [];
  description = [];
}

-- `corpus.Load`
unfoldable pub load_corpus : World → Text → Result CommandError Corpus
load_corpus w path = elim (w.corpus_file path) [
  | none ↦ err no_corpus
  | some file ↦ map_err bad_corpus (Files.load file.0 file.1) >>= λ ds.
      ok (record { domains = ds; manifest = elim file.1 [ none ↦ no_manifest | some m ↦ m ] })
]

-- `sink.Open`
unfoldable pub open_results : World → Text → Result CommandError Mmap
open_results w path = map_err bad_results (Sinks.open_file (w.faults path) (w.files path))

-- the machine after a write to one result file
abbrev pub set_file : World → Text → List ℕ → World
set_file w path content = record w { files = λ p. if eq_text p path then content else w.files p }
