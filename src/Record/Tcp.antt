-- ===== src/Record/Tcp.antt =====
-- internal/record/record.go: the constants of `TCP`, the transport-connect outcome
use www_scanner.Prelude.{ℕ, List, [], ◌∷◌, Text, text}
use www_scanner.Record.Names.{name_or_invalid}

abbrev pub unattempted : ℕ
unattempted = 0

abbrev pub ok : ℕ
ok = 1

abbrev pub refused : ℕ
refused = 2

abbrev pub timeout : ℕ
timeout = 3

abbrev pub unreachable : ℕ
unreachable = 4

abbrev pub error : ℕ
error = 5

abbrev names : List Text
names =
    text "unattempted"
    ∷ text "ok"
    ∷ text "refused"
    ∷ text "timeout"
    ∷ text "unreachable"
    ∷ text "error"
    ∷ []

-- `String`
unfoldable pub string : ℕ → Text
unfolding name_or_invalid text
string = name_or_invalid names
