-- ===== src/Record/Delegation.antt =====
-- internal/record/record.go: the constants of `Delegation`, what the parent zone says of a name
use www_scanner.Prelude.{ℕ, List, [], ◌∷◌, Text, text}
use www_scanner.Record.Names.{name_or_invalid}

abbrev pub unchecked : ℕ
unchecked = 0

abbrev pub ok : ℕ
ok = 1

abbrev pub missing : ℕ
missing = 2

abbrev pub no_data : ℕ
no_data = 3

abbrev pub broken : ℕ
broken = 4

abbrev names : List Text
names =
    text "unchecked"
    ∷ text "delegated"
    ∷ text "not-delegated"
    ∷ text "no-ns-records"
    ∷ text "broken"
    ∷ []

-- `String`
unfoldable pub string : ℕ → Text
unfolding name_or_invalid text
string = name_or_invalid names
