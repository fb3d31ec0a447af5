-- ===== src/Corpus/Files.antt =====
-- internal/corpus/corpus.go: `Load`, `Write` and `Verify`, on the content of the file and its manifest. The
-- checksum, the JSON of the manifest and the clock are parameters or left out; the system calls succeed.
use www_scanner.Prelude.{
  ℕ, not, ◌&&◌, List, [], ◌∷◌, ◌++◌, Option, none, some, Result, ok, err, leb, ltb, ◌||◌, length,
  if◌then◌else◌, ◌==◌, Text, eq_text,
}
use www_scanner.Corpus.Normalize.{normalize, lines, scan_text}

pub record Manifest : Type 0 where
  pub source : Text
  pub source_url : Text
  pub list_id : Text
  pub fetched : ℕ  -- zero for `IsZero`
  pub count : ℕ
  pub sha256 : Text
  pub description : Text

pub data Error : Type 0 where
  line_too_long : Error
  is_empty : Error
  misaligned : ℕ → ℕ → Error  -- the domains of the file and of the manifest
  no_manifest : Error
  wrong_checksum : Error

-- the limit of the scanner's buffer
abbrev pub line_limit : ℕ
line_limit = 1048576

-- the loop of `Load`
unfoldable pub read_domains : List Text → Result Error (List Text)
unfolding eq_text
read_domains [] = ok []
read_domains (l ∷ ls) =
    let rest = read_domains ls in
    if leb line_limit (length l)
    then err line_too_long
    else if eq_text (normalize (scan_text l)) []
    then rest
    else elim rest [
      | ok ds ↦ ok (normalize (scan_text l) ∷ ds)
      | err e ↦ err e
      | Result.panic ↦ Result.panic
    ]

-- the tests of `Load` behind its loop
abbrev pub check_domains : Option Manifest → List Text → Result Error (List Text)
check_domains m ds = if length ds == 0 then err is_empty else elim m [
  | none ↦ ok ds
  | some m' ↦
      if not (m'.count == 0) && not (m'.count == length ds)
      then err (misaligned (length ds) m'.count)
      else ok ds
]

-- `Load`, of a file and the manifest beside it, if one can be read
unfoldable pub load : Text → Option Manifest → Result Error (List Text)
unfolding read_domains lines
load content m = elim (read_domains (lines content)) [
  | ok ds ↦ check_domains m ds
  | err e ↦ err e
  | Result.panic ↦ Result.panic
]

-- the file of `Write`
unfoldable pub file_of : List Text → Text
file_of [] = []
file_of (d ∷ ds) = d ++ (10 ∷ file_of ds)

module _ (sha256_of : Text → Text) (now : ℕ) where
  -- `Write`: the file and the manifest
  unfoldable pub write : List Text → Manifest → Text × Manifest
  unfolding file_of
  write ds m = (
    file_of ds,
    record m {
      count = length ds;
      sha256 = sha256_of (file_of ds);
      fetched = if m.fetched == 0 then now else m.fetched;
    },
  )

  -- `Verify`, of the content of the file. The message of the error cuts both checksums to 12 characters, which
  -- panics on a shorter one.
  unfoldable pub verify : Text → Option Manifest → Result Error (Unit {0})
  unfolding eq_text
  verify content m = elim m [
    | none ↦ err no_manifest
    | some m' ↦
        let got = sha256_of content in
        if not (eq_text got m'.sha256)
        then (if ltb (length got) 12 || ltb (length m'.sha256) 12
            then Result.panic
            else err wrong_checksum)
        else ok tt
  ]
