-- ===== src/Report/Interval.antt =====
-- internal/report/report.go: `ConfidenceInterval`. Floating point is a type with the operations that the code uses, a
-- parameter.
use www_scanner.Prelude.{ℕ, ◌-◌, Bool, ◌||◌, leb, ltb, if◌then◌else◌}

-- the operations on float64
pub record Floats (Float : Type 0) : Type 0 where
  pub zero_float : Float
  pub one_float : Float
  pub z_95 : Float  -- 1.96
  pub hundred : Float
  pub of_int : ℕ → Float
  pub less : Float → Float → Bool
  pub minus : Float → Float → Float
  pub times : Float → Float → Float
  pub divide : Float → Float → Float
  pub sqrt : Float → Float

module _ {Float : Type 0} (o : Floats Float) where
  open o use {zero_float, one_float, z_95, hundred, of_int, less, minus, times, divide, sqrt}

  -- the error of a share `p` of `n`, before the correction
  abbrev pub standard_error : Float → ℕ → Float
  standard_error p n = sqrt (divide (times p (minus one_float p)) (of_int n))

  -- the factor for a sample of a finite population
  abbrev pub correction : ℕ → ℕ → Float
  correction n population = sqrt (divide (of_int (population - n)) (of_int (population - 1)))

  -- `ConfidenceInterval`, of counts that are not negative
  unfoldable pub confidence_interval : Float → ℕ → ℕ → Float
  confidence_interval p n population =
      if leb n 1 || less p zero_float || less one_float p
      then zero_float
      else let se = standard_error p n in
        let corrected = if ltb n population then times se (correction n population) else se in
        times (times z_95 corrected) hundred
