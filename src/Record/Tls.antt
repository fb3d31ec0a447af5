-- ===== src/Record/Tls.antt =====
-- internal/record/record.go: the constants of `TLS`, the handshake outcome
use www_scanner.Prelude.{ℕ, List, [], ◌∷◌, Text, text}
use www_scanner.Record.Names.{name_or_invalid}

abbrev pub unattempted : ℕ
unattempted = 0

abbrev pub ok : ℕ
ok = 1

abbrev pub name_mismatch : ℕ
name_mismatch = 2

abbrev pub expired : ℕ
expired = 3

abbrev pub unknown_authority : ℕ
unknown_authority = 4

abbrev pub handshake_fail : ℕ
handshake_fail = 5

abbrev pub timeout : ℕ
timeout = 6

abbrev pub error : ℕ
error = 7

abbrev names : List Text
names =
    text "unattempted"
    ∷ text "ok"
    ∷ text "name-mismatch"
    ∷ text "expired"
    ∷ text "unknown-authority"
    ∷ text "handshake-fail"
    ∷ text "timeout"
    ∷ text "error"
    ∷ []

-- `String`
unfoldable pub string : ℕ → Text
unfolding name_or_invalid text
string = name_or_invalid names
