-- ===== src/Corpus/Tranco.antt =====
-- internal/corpus/tranco.go: `FetchTrancoList` and the timestamps of Tranco. HTTP, the JSON of the reply and `time.Parse` are
-- parameters.
use www_scanner.Prelude.{
  ℕ, Bool, not, ◌||◌, List, [], ◌∷◌, ◌++◌, Option, none, some, Result, ok, err, panic, ◌==◌,
  if◌then◌else◌, Text, text, eq_text,
}
use www_scanner.Corpus.Import.{ImportError, TrancoList, fetch_tranco}
use www_scanner.Corpus.Files.{Manifest}

-- the layouts that `UnmarshalJSON` tries
abbrev pub layouts : List Text
layouts =
    text "2006-01-02T15:04:05.999999"
    ∷ text "2006-01-02T15:04:05"
    ∷ text "2006-01-02T15:04:05Z07:00"
    ∷ text "2006-01-02"
    ∷ []

-- its loop: the first layout that fits
unfoldable pub first_parsed {ℓ} :
    {Time : Type ℓ} → (Text → Text → Option Time) → List Text → Text → Option Time
first_parsed parse [] s = none
first_parsed parse (layout ∷ rest) s =
    let later = first_parsed parse rest s in
    elim (parse layout s) [ some t ↦ some t | none ↦ later ]

-- `UnmarshalJSON` of a text, with the time before: an empty text leaves it
unfoldable pub unmarshal_time {ℓ} :
    {Time : Type ℓ} → (Text → Text → Option Time) → Time → Text → Option Time
unfolding first_parsed eq_text
unmarshal_time parse before s = if eq_text s [] then some before else first_parsed parse layouts s

-- the reply of the API: `TrancoList` as it is decoded
pub record ListReply : Type 0 where
  pub list_id : Text
  pub available : Bool
  pub failed : Bool
  pub download : Text
  pub created_on : Text

pub data ListError : Type 0 where
  no_answer : ListError
  bad_status : ℕ → Text → ListError
  not_decoded : ListError
  not_available : Text → ListError

-- `trancoAPI`
abbrev pub tranco_api : Text
tranco_api = text "https://tranco-list.eu/api/lists/date"

-- the list of a reply, with the default of its download
abbrev pub list_of : ListReply → TrancoList
list_of r = record {
  list_id = r.list_id;
  download =
      if eq_text r.download []
      then text "https://tranco-list.eu/download/" ++ r.list_id ++ text "/1000000"
      else r.download;
  created_on = r.created_on;
}

module _ (get : Text → Option (ℕ × Text)) (decode : Text → Option ListReply) where
  -- `FetchTrancoList`; `get` gives the status and the body behind a URL
  unfoldable pub fetch_list : Text → Result ListError TrancoList
  unfolding eq_text text
  fetch_list date =
      let day = if eq_text date [] then text "latest" else date in
      elim (get (tranco_api ++ text "/" ++ day)) [
        | none ↦ err no_answer
        | some (status, body) ↦
            if not (status == 200) then err (bad_status status day) else elim (decode body) [
              | none ↦ err not_decoded
              | some r ↦
                  if r.failed || not r.available then err (not_available day) else ok (list_of r)
            ]
      ]

  -- `FetchTranco` of a date
  unfoldable pub fetch_tranco_of :
      (Text → Text)
      → ℕ
      → (Text → Option (List (Text × Option Text)))
      → (Text → Option Text)
      → Text
      → ℕ
      → Result ImportError (Text × Manifest)
  unfolding fetch_list
  fetch_tranco_of sha256_of now unzip download date limit =
      let found : Option TrancoList = elim (fetch_list date) [
        | ok l ↦ some l
        | err e ↦ none
        | panic ↦ none
      ] in
      fetch_tranco sha256_of now unzip found download limit
