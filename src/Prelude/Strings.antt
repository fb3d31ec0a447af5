-- ===== src/Prelude/Strings.antt =====
-- The functions of Go's `strings` package that the program uses, on ASCII text. (On a byte from 128
-- on, Go's `TrimSpace` and `ToLower` consult Unicode tables, which are not modelled.)
use www_scanner.Prelude.Tests.{leb, ◌==◌, if◌then◌else◌}
use www_scanner.Prelude.Texts.{Text, eq_text}
use Prim.Native.Nat.{ℕ, suc, ◌+◌, ◌-◌}
use www_scanner.Prelude.Lists.{length, replicate}
use mathlib.Core.Bool.{Bool, true, false, ◌&&◌, ◌||◌}
use mathlib.Core.List.{List, [], ◌∷◌, ◌++◌, map}
use mathlib.Core.Option.{Option, none, some}

-- '\t', '\n', '\v', '\f', '\r' and ' '
unfoldable pub is_space : ℕ → Bool
is_space c = (leb 9 c && leb c 13) || c == 32

unfoldable pub trim_left : Text → Text
trim_left [] = []
trim_left (c ∷ s) = if is_space c then trim_left s else c ∷ s

unfoldable pub trim_right : Text → Text
trim_right [] = []
trim_right (c ∷ s) =
    let rest = trim_right s in if is_space c && eq_text rest [] then [] else c ∷ rest

-- `strings.TrimSpace`
unfoldable pub trim_space : Text → Text
unfolding trim_left trim_right is_space
trim_space s = trim_right (trim_left s)

unfoldable pub lower : ℕ → ℕ
lower c = if leb b'A' c && leb c b'Z' then c + 32 else c

-- `strings.ToLower`
unfoldable pub to_lower : Text → Text
unfolding lower
to_lower s = map lower s

-- `strings.HasPrefix`
unfoldable pub has_prefix : Text → Text → Bool
has_prefix s [] = true
has_prefix [] (p ∷ ps) = false
has_prefix (c ∷ s) (p ∷ ps) = c == p && has_prefix s ps

-- `strings.HasSuffix`
unfoldable pub has_suffix : Text → Text → Bool
has_suffix [] p = eq_text [] p
has_suffix (c ∷ s) p = eq_text (c ∷ s) p || has_suffix s p

-- `strings.TrimSuffix`
unfoldable pub trim_suffix : Text → Text → Text
trim_suffix [] p = []
trim_suffix (c ∷ s) p = if eq_text (c ∷ s) p then [] else c ∷ trim_suffix s p

unfoldable pub one_of : ℕ → Text → Bool
one_of c [] = false
one_of c (x ∷ xs) = x == c || one_of c xs

-- `strings.ContainsAny`
unfoldable pub contains_any : Text → Text → Bool
unfolding one_of
contains_any [] cs = false
contains_any (c ∷ s) cs = one_of c cs || contains_any s cs

-- `strings.LastIndexByte`, `none` for -1
unfoldable pub last_index_byte : Text → ℕ → Option ℕ
last_index_byte [] b = none
last_index_byte (c ∷ s) b = elim (last_index_byte s b) [
  | some i ↦ some (suc i)
  | none ↦ if c == b then some 0 else none
]

-- `strings.Split` at one byte: the pieces, of which there is always one
unfoldable pub split_at : ℕ → Text → List Text
split_at b [] = [] ∷ []
split_at b (c ∷ s) = elim (split_at b s) [
  | [] ↦ []
  | piece ∷ pieces ↦ if c == b then [] ∷ piece ∷ pieces else (c ∷ piece) ∷ pieces
]

-- `strings.Join`
unfoldable pub join : Text → List Text → Text
join sep [] = []
join sep (piece ∷ []) = piece
join sep (piece ∷ next ∷ pieces) = piece ++ sep ++ join sep (next ∷ pieces)

-- `strings.Fields`: the words between white space
unfoldable pub fields : Text → List Text
unfolding is_space
fields [] = []
fields (c ∷ []) = if is_space c then [] else (c ∷ []) ∷ []
fields (c ∷ d ∷ s) =
    let rest = fields (d ∷ s) in
    if is_space c
    then rest
    else if is_space d
    then (c ∷ []) ∷ rest
    else elim rest [ [] ↦ (c ∷ []) ∷ [] | word ∷ words ↦ (c ∷ word) ∷ words ]

-- `%-*s`
unfoldable pub pad_right : ℕ → Text → Text
pad_right width s = s ++ replicate (width - length s) b' '

-- `%*s`
unfoldable pub pad_left : ℕ → Text → Text
pad_left width s = replicate (width - length s) b' ' ++ s
