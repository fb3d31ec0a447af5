-- ===== src/Corpus/Import.antt =====
-- internal/corpus/tranco.go: `FromFile`, and `FetchTranco` with `csvReader`, on what the downloads give. HTTP, the zip
-- archive, times and the checksum are parameters.
use www_scanner.Prelude.{
  ℕ, not, List, [], ◌∷◌, ◌++◌, Option, none, some, Result, ok, err, map_err, ◌>>=◌, length, ◌==◌,
  if◌then◌else◌, Text, text,
}
use www_scanner.Prelude.Strings.{has_prefix, has_suffix}
use www_scanner.Prelude.Decimal.{format_int}
use www_scanner.Corpus.Files.{Manifest, write}
use www_scanner.Corpus.Files as Files
use www_scanner.Corpus.Ranked.{parse_ranked}

pub data ImportError : Type 0 where
  not_opened : ImportError
  not_parsed : Files.Error → ImportError
  no_domains : ImportError
  list_not_found : ImportError
  download_failed : ImportError
  bad_zip : ImportError
  no_csv : ImportError

-- `TrancoList`, without the fields that only its decoding reads; the date is its text
pub record TrancoList : Type 0 where
  pub list_id : Text
  pub download : Text
  pub created_on : Text

-- the domains of a file that was read, of which there is at least one
unfoldable pub ranked_domains : Text → ℕ → Result ImportError (List Text)
ranked_domains content limit = map_err not_parsed (parse_ranked content limit) >>= λ domains.
    if length domains == 0 then err no_domains else ok domains

module _ (sha256_of : Text → Text) (now : ℕ) where
  -- `FromFile`, of the content of the file, if it can be opened: the corpus file and its manifest
  unfoldable pub from_file : Text → Option Text → ℕ → Result ImportError (Text × Manifest)
  unfolding ranked_domains text
  from_file src none limit = err not_opened
  from_file src (some content) limit = ranked_domains content limit >>= λ domains. ok (
      write sha256_of now domains (record {
        source = text "file";
        source_url = src;
        list_id = [];
        fetched = now;
        count = 0;
        sha256 = [];
        description = text "imported from " ++ src;
      }))

  -- the search for the first `.csv` in the archive: its content, if it can be read
  unfoldable pub first_csv : List (Text × Option Text) → Result ImportError Text
  unfolding has_suffix text
  first_csv [] = err no_csv
  first_csv (f ∷ files) =
      let rest = first_csv files in
      if not (has_suffix f.0 (text ".csv"))
      then rest
      else elim (f.1) [ none ↦ err bad_zip | some content ↦ ok content ]

  -- `csvReader`; `unzip` is what `zip.NewReader` finds
  unfoldable pub csv_reader :
      (Text → Option (List (Text × Option Text))) → Text → Result ImportError Text
  unfolding first_csv has_prefix text
  csv_reader unzip body =
      if has_prefix body (text "PK")
      then elim (unzip body) [ none ↦ err bad_zip | some files ↦ first_csv files ]
      else ok body

  -- `FetchTranco`, of the list that `FetchTrancoList` finds and the body that its download gives
  unfoldable pub fetch_tranco :
      (Text → Option (List (Text × Option Text)))
      → Option TrancoList
      → (Text → Option Text)
      → ℕ
      → Result ImportError (Text × Manifest)
  unfolding ranked_domains text
  fetch_tranco unzip none download limit = err list_not_found
  fetch_tranco unzip (some list) download limit = elim (download list.download) [
    | none ↦ err download_failed
    | some body ↦ csv_reader unzip body >>= λ content. ranked_domains content limit >>= λ domains.
        ok (
          write sha256_of now domains (record {
            source = text "tranco";
            source_url = list.download;
            list_id = list.list_id;
            fetched = now;
            count = 0;
            sha256 = [];
            description =
                text "Tranco daily list "
                ++ list.list_id
                ++ text " (created "
                ++ list.created_on
                ++ text "), rank order preserved, top "
                ++ format_int (length domains);
          }))
  ]
