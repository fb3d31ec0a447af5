-- ===== src/Command/Texts.antt =====
-- cmd/wwwscan/main.go: the small functions on strings at its end. `%.1f` of a quotient is a parameter.
use native.Mathlib.Nat.{pow-suc, mul_assoc, mul_comm}
use www_scanner.Prelude.{
  ◌^◌, ◌<◌, ◌≤◌, ◌≡◌, ◌∙◌, ap, sym, Bool-cases, inl, inr, arith, ℕ, zero, suc, ◌+◌, ◌-◌, ◌*◌, ◌/◌,
  ◌%◌, ◌&&◌, none, some, [], ◌∷◌, ◌++◌, ℤ, pos, negsuc, length, take, get_or, ltb, leb, ◌==◌,
  if◌then◌else◌, Text, text,
}
use www_scanner.Prelude.Strings.{last_index_byte}
use www_scanner.Prelude.Decimal.{format_int}

-- `ordinalSuffix`. In Go the remainder of a negative number is not positive, so it meets no case.
unfoldable pub ordinal_suffix : ℤ → Text
unfolding text
ordinal_suffix (negsuc n) = text "th"
ordinal_suffix (pos n) =
    if leb 11 (n % 100) && leb (n % 100) 13
    then text "th"
    else if n % 10 == 1
    then text "st"
    else if n % 10 == 2
    then text "nd"
    else if n % 10 == 3
    then text "rd"
    else text "th"

-- `short`
unfoldable pub short : Text → Text
short s = if ltb 12 (length s) then take 12 s else s

-- `dirOf`
unfoldable pub dir_of : Text → Text
unfolding last_index_byte
dir_of path = elim (last_index_byte path b'/') [
  | none ↦ []
  | some i ↦ if ltb 0 i then take i path else []
]

-- the three bytes of the ellipsis
abbrev pub ellipsis : Text
ellipsis = 226 ∷ 128 ∷ 166 ∷ []

-- `truncate`, for a positive width
unfoldable pub truncate : Text → ℕ → Text
truncate s n = if leb (length s) n then s else take (n - 1) s ++ ellipsis

-- the loop of `humanBytes`, whose `m` is divided by the unit in every round: the divisor and the exponent
unfoldable pub scale : ℕ → ℕ → ℕ → ℕ → ℕ × ℕ
scale zero m div exp = (div, exp)
scale (suc rounds) m div exp =
    let rest = scale rounds (m / 1024) (div * 1024) (exp + 1) in
    if leb 1024 m then rest else (div, exp)

-- `humanBytes`, of a number that is not negative; six rounds exceed every int64
unfoldable pub human_bytes : (ℕ → ℕ → Text) → ℕ → Text
unfolding scale text
human_bytes fixed_1 n =
    if ltb n 1024
    then format_int n ++ text " B"
    else let s = scale 6 (n / 1024) 1024 0 in
      fixed_1 n s.0 ++ text " " ++ get_or (text "KMGTPE") s.1 b'?' ∷ text "B"

pair : {a b c d : ℕ} → a ≡ b → c ≡ d → ◌≡◌ {A = ℕ × ℕ} (a, c) (b, d)
pair e f = λ i. (e i, f i)

shift : (d p : ℕ) → d * 1024 * p ≡ d * (p * 1024)
shift d p = mul_assoc d 1024 p ∙ ap (λ t. d * t) (mul_comm 1024 p)

-- Enough rounds find the unit: the divisor is the power of 1024 that the exponent says, and the number is below the next
-- power, so what is printed has at most four digits before its point.
pub scale_lem :
    (rounds m div exp : ℕ)
    → m < 1024 ^ suc rounds
    → (k : ℕ) × (scale rounds m div exp ≡ (div * 1024 ^ k, exp + k))
      × (k ≤ rounds)
      × (m < 1024 ^ suc k)
unfolding scale
scale_lem zero m div exp h = (0, pair (omega arith) (omega arith), omega arith, h)
scale_lem (suc rounds) m div exp h = elim (Bool-cases (leb 1024 m)) [
  | inl large ↦
      let below : m / 1024 < 1024 ^ suc rounds = omega (arith, pow-suc 1024 (suc rounds)) in
      let (k, e, b, l) = scale_lem rounds (m / 1024) (div * 1024) (exp + 1) below in
      (
        suc k,
        rw large (
            e
            ∙ pair (shift div (1024 ^ k) ∙ ap (λ p. div * p) (sym (pow-suc 1024 k))) (omega arith)),
        omega arith,
        omega (arith, pow-suc 1024 (suc k)),
      )
  | inr small ↦ (0, rw small (pair (omega arith) (omega arith)), omega arith, ground (arith, small))
]
