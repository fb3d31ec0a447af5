-- ===== src/Report/Diff.antt =====
-- internal/report/report.go: `Diff`, what moved between two runs over the same corpus.
pub mod Laws
use www_scanner.Prelude.{
  ℕ, Bool, true, false, not, ◌||◌, bne, List, [], ◌∷◌, range, min, get_or, length, ◌==◌,
  if◌then◌else◌, Text,
}
use www_scanner.Record.{Record, www_supported}
use www_scanner.Record.Status
use www_scanner.Sink.Results.{Results}

-- `Change`
pub record Change : Type 0 where
  pub domain : Text
  pub from : Record
  pub to : Record

-- `a.WWWSupported() != b.WWWSupported() || a.Canonical != b.Canonical`
abbrev pub moved : Record → Record → Bool
moved a b = bne (www_supported a) (www_supported b) || not (a.canonical == b.canonical)

-- the loop of `Diff` over the indices left
unfoldable pub changes : List Text → Results → Results → List ℕ → List Change
changes domains before after [] = []
changes domains before after (i ∷ is) =
    let rest = changes domains before after is in
    let a = before.get i in
    let b = after.get i in
    if a.status == Status.unattempted || b.status == Status.unattempted
    then rest
    else if moved a b
    then record { domain = get_or domains i []; from = a; to = b } ∷ rest
    else rest

-- `Diff`
unfoldable pub diff : List Text → Results → Results → List Change
unfolding changes
diff domains before after =
    changes domains before after (range (min (length domains) (min before.len after.len)))
