-- ===== src/Record/Flags.antt =====
-- internal/record/record.go: the bits of `Flags`
use Prim.Native.Nat.{bit_and}
use www_scanner.Prelude.{ℕ, Bool, ◌==◌}

abbrev pub wildcard_checked : ℕ
wildcard_checked = 1

abbrev pub wildcard : ℕ
wildcard = 2

abbrev pub http_fallback : ℕ
http_fallback = 4

-- `Has`: every bit of `want` is set in `f`
unfoldable pub has : ℕ → ℕ → Bool
has f want = bit_and f want == want
