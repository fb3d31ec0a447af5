-- ===== src/Prelude/WriteFile.antt =====
-- `os.WriteFile`: the file at a path afterwards, and whether there was no error.
use Prim.Native.Nat.{ℕ}
use www_scanner.Prelude.Lists.{take}
use www_scanner.Prelude.Tests.{if◌then◌else◌}
use www_scanner.Prelude.Texts.{Text}
use mathlib.Core.Bool.{Bool, true, false}
use mathlib.Core.Option.{Option, none, some}
use mathlib.Core.Path.{◌≡◌}
use native.Mathlib.Omega.{arith}

-- the file cannot be created, or its writing ends after so many bytes
pub record FileFaults : Type 0 where
  pub open_fails : Bool
  pub cut_at : Option ℕ

unfoldable pub write_file : FileFaults → Text → Option Text → Option Text × Bool
write_file faults content before =
    if faults.open_fails then (before, false) else elim faults.cut_at [
      | some n ↦ (some (take n content), false)
      | none ↦ (some content, true)
    ]

-- a call without an error leaves the whole content
pub write_file-whole :
    (faults : FileFaults) (content : Text) (before : Option Text)
    → (write_file faults content before).1 ≡ true
    → (write_file faults content before).0 ≡ some content
unfolding write_file
write_file-whole faults content before h = ground arith
