-- ===== src/Record/Resolve.antt =====
-- internal/record/record.go: the constants of `Resolve`, the DNS outcome for one name
use www_scanner.Prelude.{ℕ, List, [], ◌∷◌, Text, text}
use www_scanner.Record.Names.{name_or_invalid}

abbrev pub unattempted : ℕ
unattempted = 0

abbrev pub ok : ℕ
ok = 1

abbrev pub nxdomain : ℕ
nxdomain = 2

abbrev pub no_data : ℕ
no_data = 3

abbrev pub timeout : ℕ
timeout = 4

abbrev pub servfail : ℕ
servfail = 5

abbrev pub refused : ℕ
refused = 6

abbrev pub error : ℕ
error = 7

abbrev names : List Text
names =
    text "unattempted"
    ∷ text "ok"
    ∷ text "nxdomain"
    ∷ text "nodata"
    ∷ text "timeout"
    ∷ text "servfail"
    ∷ text "refused"
    ∷ text "error"
    ∷ []

-- `String`
unfoldable pub string : ℕ → Text
unfolding name_or_invalid text
string = name_or_invalid names
