-- ===== src/Report/Export.antt =====
-- internal/report/report.go: `matches` and `WriteCSV`, the rows worth looking at by hand. A row is
-- its fields; the quoting of `encoding/csv` and the failures of the underlying file are left out.
use www_scanner.Prelude.{
  ℕ, Bool, true, false, not, ◌&&◌, ◌||◌, List, [], ◌∷◌, range, min, get_or, length, ltb, leb, ◌==◌,
  if◌then◌else◌, Text, text, eq_text,
}
use www_scanner.Prelude.Decimal.{format_int}
use www_scanner.Prelude.Strings.{trim_space, to_lower}
use www_scanner.Record.{Record, Side, conclusive, www_supported}
use www_scanner.Record.Status
use www_scanner.Record.Flags
use www_scanner.Record.Resolve
use www_scanner.Record.RrTypes
use www_scanner.Record.Tcp
use www_scanner.Record.Tls
use www_scanner.Record.Terminal
use www_scanner.Record.Canonical
use www_scanner.Sink.Results.{Results}

-- `matches`
unfoldable pub matches : Record → Text → Bool
unfolding trim_space to_lower text
matches r only =
    let folded = to_lower (trim_space only) in
    if eq_text folded [] || eq_text folded (text "all")
    then true
    else if eq_text folded (text "wildcard")
    then Flags.has r.flags Flags.wildcard
    else if eq_text folded (text "supported")
    then www_supported r
    else if eq_text folded (text "stalled")
    then not (conclusive r)
    else if eq_text folded (text "broken")
    then leb 200 r.apex.http && ltb r.apex.http 400 && not (www_supported r)
    else eq_text (Resolve.string r.www.resolve) only
      || eq_text (Tls.string r.www.tls) only
      || eq_text (Canonical.string r.canonical) only
      || eq_text (Terminal.string r.www.terminal) only

-- `strconv.FormatBool`
abbrev format_bool : Bool → Text
format_bool true = text "true"
format_bool false = text "false"

-- the seven columns of one name, in front of the rest of the row
abbrev side_columns : Side → List Text → List Text
side_columns s rest =
    Resolve.string s.resolve
    ∷ RrTypes.string s.rr_types
    ∷ Tcp.string s.tcp
    ∷ Tls.string s.tls
    ∷ format_int s.http
    ∷ Terminal.string s.terminal
    ∷ format_int s.hops
    ∷ rest

-- the row of one domain
unfoldable pub row : Text → Record → List Text
unfolding format_int text
row domain r =
    domain
    ∷ Canonical.string r.canonical
    ∷ format_bool (Flags.has r.flags Flags.wildcard)
    ∷ side_columns r.apex (side_columns r.www (format_int r.duration_m ∷ []))

-- the loop of `WriteCSV` over the indices left
unfoldable pub rows : List Text → Results → Text → List ℕ → List (List Text)
rows domains res only [] = []
rows domains res only (i ∷ is) =
    let rest = rows domains res only is in
    let r = res.get i in
    if r.status == Status.unattempted || not (matches r only)
    then rest
    else row (get_or domains i []) r ∷ rest

-- The rows that `WriteCSV` writes behind the header, and the count that it returns.
unfoldable pub write_csv : List Text → Results → Text → List (List Text) × ℕ
unfolding rows
write_csv domains res only =
    let written = rows domains res only (range (min (length domains) res.len)) in
    (written, length written)
