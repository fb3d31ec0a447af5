-- ===== src/Corpus/Normalize.antt =====
-- internal/corpus/corpus.go: `normalize`, and the lines that a `bufio.Scanner` gives.
use www_scanner.Prelude.{
  ℕ, ◌+◌, ◌||◌, not, List, [], ◌∷◌, none, some, drop, if◌then◌else◌, ◌==◌, Text, text, eq_text,
}
use www_scanner.Prelude.Strings.{
  trim_space, to_lower, has_prefix, trim_suffix, contains_any, last_index_byte,
}

-- the part behind the last comma
abbrev pub after_comma : Text → Text
after_comma s = elim (last_index_byte s 44) [ none ↦ s | some i ↦ drop (i + 1) s ]

-- the rest of `normalize`, behind the removal of the rank
unfoldable pub normal_host : Text → Text
unfolding trim_space to_lower trim_suffix contains_any eq_text text
normal_host s =
    let host = to_lower (trim_suffix (trim_space s) (text ".")) in
    if eq_text host []
      || not (contains_any host (text "."))
      || contains_any host (32 ∷ 9 ∷ 47 ∷ 58 ∷ [])
    then []
    else host

-- `normalize`
unfoldable pub normalize : Text → Text
unfolding trim_space has_prefix normal_host last_index_byte eq_text text
normalize raw =
    let s = trim_space raw in
    if eq_text s [] || has_prefix s (text "#") then [] else normal_host (after_comma s)

abbrev put_first : ℕ → List Text → List Text
put_first c [] = (c ∷ []) ∷ []
put_first c (l ∷ ls) = (c ∷ l) ∷ ls

-- the lines of a file without their line feeds
unfoldable pub lines : Text → List Text
lines [] = []
lines (c ∷ cs) = let rest = lines cs in if c == 10 then [] ∷ rest else put_first c rest

-- `sc.Text()`: a carriage return at the end is dropped
unfoldable pub scan_text : Text → Text
unfolding trim_suffix
scan_text line = trim_suffix line (13 ∷ [])
