-- ===== src/Record/RrTypes.antt =====
-- internal/record/record.go: the bits of `RRTypes`, what the answer chain contained
use Prim.Native.Nat.{bit_and}
use www_scanner.Prelude.{ℕ, ◌==◌, List, [], ◌∷◌, ◌++◌, Text, text, eq_text, if◌then◌else◌}

abbrev pub a : ℕ
a = 1

abbrev pub aaaa : ℕ
aaaa = 2

abbrev pub cname : ℕ
cname = 4

abbrev parts : List (ℕ × Text)
parts = (a, text "A") ∷ (aaaa, text "AAAA") ∷ (cname, text "CNAME") ∷ []

-- the loop of `String` over its three pairs, with the text so far
add_names : ℕ → List (ℕ × Text) → Text → Text
add_names r [] out = out
add_names r ((bit, name) ∷ ps) out =
    add_names r ps (
      if bit_and r bit == 0 then out else (if eq_text out [] then out else out ++ text "+") ++ name)

-- `String`
unfoldable pub string : ℕ → Text
unfolding add_names eq_text text
string r = if r == 0 then text "-" else add_names r parts []
