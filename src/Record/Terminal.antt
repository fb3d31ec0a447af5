-- ===== src/Record/Terminal.antt =====
-- internal/record/record.go: the constants of `Terminal`, where a redirect chain came to rest
use www_scanner.Prelude.{ℕ, List, [], ◌∷◌, Text, text}
use www_scanner.Record.Names.{name_or_invalid}

abbrev pub nowhere : ℕ
nowhere = 0

abbrev pub self : ℕ
self = 1

abbrev pub apex : ℕ
apex = 2

abbrev pub www : ℕ
www = 3

abbrev pub same_site : ℕ
same_site = 4

abbrev pub external : ℕ
external = 5

abbrev names : List Text
names =
    text "none" ∷ text "self" ∷ text "apex" ∷ text "www" ∷ text "same-site" ∷ text "external" ∷ []

-- `String`
unfoldable pub string : ℕ → Text
unfolding name_or_invalid text
string = name_or_invalid names
