-- ===== src/Record/Names.antt =====
-- internal/record/record.go: the table lookup that every `String` method of the record makes.
use www_scanner.Prelude.{ℕ, zero, suc, List, [], ◌∷◌, Text, text}

-- `if int(d) < len(names) { return names[d] }; return "invalid"`
unfoldable pub name_or_invalid : List Text → ℕ → Text
unfolding text
name_or_invalid [] d = text "invalid"
name_or_invalid (n ∷ ns) zero = n
name_or_invalid (n ∷ ns) (suc d) = name_or_invalid ns d
