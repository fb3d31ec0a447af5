-- ===== src/Prelude/Integers.antt =====
-- Go's `int`, as far as the program computes with it: it may be negative, and its 64 bits are never exceeded here.
use Prim.Native.Nat.{ℕ, suc, ◌+◌, ◌*◌, ◌-◌}
use mathlib.Core.Bool.{Bool, true, false}
use mathlib.Core.List.{[], ◌∷◌}
use mathlib.Core.Option.{Option, none, some}
use www_scanner.Prelude.Tests.{ltb, leb, ◌==◌, if◌then◌else◌}
use www_scanner.Prelude.Texts.{Text}
use www_scanner.Prelude.Decimal.{format_int}

-- `negsuc n` is -n - 1
pub data ℤ : Type 0 where
  pos : ℕ → ℤ
  negsuc : ℕ → ℤ

-- `a < b`
unfoldable pub ltb_int : ℤ → ℤ → Bool
ltb_int (pos a) (pos b) = ltb a b
ltb_int (pos a) (negsuc b) = false
ltb_int (negsuc a) (pos b) = true
ltb_int (negsuc a) (negsuc b) = ltb b a

-- `a * k` for a positive constant
unfoldable pub times : ℤ → ℕ → ℤ
times (pos a) k = pos (a * k)
times (negsuc a) k = negsuc (a * k + k - 1)

-- the number, if it is positive, and 0 otherwise
unfoldable pub positive_part : ℤ → ℕ
positive_part (pos a) = a
positive_part (negsuc a) = 0

-- `%d`
unfoldable pub format_signed : ℤ → Text
format_signed (pos a) = format_int a
format_signed (negsuc a) = b'-' ∷ format_int (suc a)

-- the value of decimal digits behind those read so far; `none` if one is not a digit
unfoldable pub read_decimal : ℕ → Text → Option ℕ
read_decimal n [] = some n
read_decimal n (c ∷ s) =
    let rest = read_decimal (n * 10 + c - b'0') s in
    if leb b'0' c then (if leb c b'9' then rest else none) else none

-- some digits
unfoldable pub read_number : Text → Option ℕ
unfolding read_decimal
read_number [] = none
read_number (c ∷ s) = read_decimal 0 (c ∷ s)

-- the range of a 64-bit `int`
abbrev pub int_limit : ℕ
int_limit = 9223372036854775808

-- a magnitude with its sign
unfoldable pub signed : Bool → ℕ → Option ℤ
signed false n = if ltb n int_limit then some (pos n) else none
signed true n =
    if leb n int_limit then (if ltb 0 n then some (negsuc (n - 1)) else some (pos 0)) else none

-- `strconv.Atoi`: an optional sign and digits; `none` is its error, also out of range
unfoldable pub atoi : Text → Option ℤ
unfolding read_number signed
atoi [] = none
atoi (c ∷ s) =
    if c == b'+'
    then elim (read_number s) [ none ↦ none | some n ↦ signed false n ]
    else if c == b'-'
    then elim (read_number s) [ none ↦ none | some n ↦ signed true n ]
    else elim (read_number (c ∷ s)) [ none ↦ none | some n ↦ signed false n ]
