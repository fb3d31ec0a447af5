-- ===== src/Resolve/Wildcard.antt =====
-- internal/resolve/resolve.go: `WildcardLabel`; the letters that it draws are a parameter.
use www_scanner.Prelude.{
  Bool, ℕ, zero, suc, ◌+◌, ◌<◌, ◌≡◌, refl, ap, [], ◌∷◌, ◌++◌, Option, none, some, get_or, length,
  ltb, ◌==◌, if◌then◌else◌, true, Text, text, arith,
}
use www_scanner.Prelude.Below.{passes, passes-at}

abbrev pub alphabet : Text
alphabet = text "abcdefghijklmnopqrstuvwxyz0123456789"

-- the loop, with the rounds left; `draw k` is what `rand.IntN` draws in round k
unfoldable pub draw_label : (ℕ → ℕ) → ℕ → ℕ → Text
draw_label draw zero k = []
draw_label draw (suc rounds) k = get_or alphabet (draw k) 0 ∷ draw_label draw rounds (k + 1)

-- `WildcardLabel`
unfoldable pub wildcard_label : (ℕ → ℕ) → Text → Text
unfolding draw_label text
wildcard_label draw domain = draw_label draw 15 0 ++ text "." ++ domain

-- what stands behind the first dot of a name, if there is one
abbrev pub parent_of : Text → Option Text
parent_of [] = none
parent_of (c ∷ cs) = if c == b'.' then some cs else parent_of cs

-- a letter of the alphabet is above the dot
abbrev above_dot : ℕ → Bool
above_dot i = ltb b'.' (get_or alphabet i 0)

dotless : passes above_dot 36 ≡ true
unfolding passes text
dotless = refl

letter-lt : (i : ℕ) → i < 36 → above_dot i ≡ true
letter-lt i h = passes-at above_dot 36 i h dotless

parent_of-draw_label :
    (draw : ℕ → ℕ) (rounds k : ℕ) (rest : Text)
    → ((j : ℕ) → draw j < 36)
    → parent_of (draw_label draw rounds k ++ rest) ≡ parent_of rest
unfolding draw_label
parent_of-draw_label draw zero k rest h = refl
parent_of-draw_label draw (suc rounds) k rest h =
    ground (arith, letter-lt (draw k) (h k), parent_of-draw_label draw rounds (k + 1) rest h)

length-draw_label : (draw : ℕ → ℕ) (rounds k : ℕ) → length (draw_label draw rounds k) ≡ rounds
unfolding draw_label
length-draw_label draw zero k = refl
length-draw_label draw (suc rounds) k = ap suc (length-draw_label draw rounds (k + 1))

-- The name that the wildcard check asks for is directly below the domain: one label of fifteen letters, none of which is a
-- dot, in front of it, if the generator draws below its bound.
pub parent_of-wildcard_label :
    (draw : ℕ → ℕ) (domain : Text)
    → ((j : ℕ) → draw j < 36)
    → (parent_of (wildcard_label draw domain) ≡ some domain) × (length (draw_label draw 15 0) ≡ 15)
unfolding wildcard_label text
parent_of-wildcard_label draw domain h =
    (parent_of-draw_label draw 15 0 (text "." ++ domain) h, length-draw_label draw 15 0)
