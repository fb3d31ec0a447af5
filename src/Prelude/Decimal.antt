-- ===== src/Prelude/Decimal.antt =====
-- Decimal output, as `%d` and `strconv.Itoa` make it, of a number below 10^20 (every uint64 is).
use Prim.Native.Nat.{ℕ, zero, suc, ◌+◌, ◌-◌, ◌*◌, ◌/◌, ◌%◌, ◌^◌, ◌<◌}
use mathlib.Core.List.{[], ◌∷◌, ◌++◌}
use mathlib.Core.Logic.{inl, inr}
use mathlib.Core.Path.{◌≡◌, refl}
use native.Mathlib.Nat.{pow-suc}
use native.Mathlib.Omega.{arith}
use www_scanner.Prelude.Tests.{ltb, Bool-cases, if◌then◌else◌}
use www_scanner.Prelude.Texts.{Text}

-- the digits, of which there are at most `fuel`
unfoldable pub digits : ℕ → ℕ → Text
digits zero n = []
digits (suc fuel) n =
    let rest = digits fuel (n / 10) in
    if ltb n 10 then (b'0' + n) ∷ [] else rest ++ (b'0' + n % 10) ∷ []

unfoldable pub format_int : ℕ → Text
unfolding digits
format_int = digits 20

-- the number that digits stand for, behind those read so far
abbrev pub read_digits : ℕ → Text → ℕ
read_digits n [] = n
read_digits n (c ∷ s) = read_digits (n * 10 + c - b'0') s

read_digits-append : (n : ℕ) (s t : Text) → read_digits n (s ++ t) ≡ read_digits (read_digits n s) t
read_digits-append n [] t = refl
read_digits-append n (c ∷ s) t = read_digits-append (n * 10 + c - b'0') s t

read_digits-digits : (fuel n : ℕ) → n < 10 ^ fuel → read_digits 0 (digits fuel n) ≡ n
unfolding digits
read_digits-digits zero n h = omega arith
read_digits-digits (suc fuel) n h = elim (Bool-cases (ltb n 10)) [
  | inl one ↦ rw one (omega arith)
  | inr more ↦
      rw
        (
          more,
          read_digits-append 0 (digits fuel (n / 10)) ((b'0' + n % 10) ∷ []),
          read_digits-digits fuel (n / 10) (omega (arith, pow-suc 10 fuel)),
        )
        (omega arith)
]

-- The fuel is enough: the digits of a number below 10^20 spell it.
pub read_digits-format_int : (n : ℕ) → n < 10 ^ 20 → read_digits 0 (format_int n) ≡ n
unfolding format_int
read_digits-format_int n h = read_digits-digits 20 n h
