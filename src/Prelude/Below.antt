-- ===== src/Prelude/Below.antt =====
-- A test that holds of each number below a bound, by running it.
use Prim.Native.Nat.{ℕ, zero, suc, ◌<◌}
use mathlib.Core.Path.{◌≡◌}
use mathlib.Core.Bool.{Bool, true, false}
use native.Mathlib.Omega.{arith}
use www_scanner.Prelude.Tests.{if◌then◌else◌}

unfoldable pub passes : (ℕ → Bool) → ℕ → Bool
passes test zero = true
passes test (suc k) = let lower = passes test k in if test k then lower else false

pub passes-at : (test : ℕ → Bool) (k i : ℕ) → i < k → passes test k ≡ true → test i ≡ true
unfolding passes
passes-at test zero i inside h = absurd (omega arith)
passes-at test (suc k) i inside h = ground (arith, passes-at test k i)
