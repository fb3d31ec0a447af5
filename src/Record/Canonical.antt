-- ===== src/Record/Canonical.antt =====
-- internal/record/record.go: the constants of `Canonical`, which of the two names wins
use www_scanner.Prelude.{ℕ, List, [], ◌∷◌, Text, text}
use www_scanner.Record.Names.{name_or_invalid}

abbrev pub unknown : ℕ
unknown = 0

abbrev pub both_fail : ℕ
both_fail = 1

abbrev pub apex_only : ℕ
apex_only = 2

abbrev pub www_only : ℕ
www_only = 3

abbrev pub www_to_apex : ℕ
www_to_apex = 4

abbrev pub apex_to_www : ℕ
apex_to_www = 5

abbrev pub both_serve : ℕ
both_serve = 6

abbrev names : List Text
names =
    text "unknown"
    ∷ text "both-fail"
    ∷ text "apex-only"
    ∷ text "www-only"
    ∷ text "www->apex"
    ∷ text "apex->www"
    ∷ text "both-serve-no-canonical"
    ∷ []

-- `String`
unfoldable pub string : ℕ → Text
unfolding name_or_invalid text
string = name_or_invalid names
