-- ===== src/Scan/Recheck.antt =====
-- internal/scan/recheck.go: which records of a previous run are worth probing again.
pub mod Stride
pub mod Cohorts
pub mod Bounds
use www_scanner.Prelude.{
  ℕ, suc, ◌+◌, ◌%◌, Bool, true, false, not, ◌&&◌, List, [], ◌∷◌, Option, none, some, range, ltb,
  leb, ◌==◌, if◌then◌else◌, Text, text, eq_text,
}
use www_scanner.Prelude.Strings.{trim_space, to_lower}
use www_scanner.Record.{Record, conclusive, www_supported}
use www_scanner.Record.Status
use www_scanner.Record.Tls
use www_scanner.Sink.Results.{Results}

-- The values of `RecheckFilter`, which is a string type.
unfoldable pub broken : Text
unfolding text
broken = text "broken"

unfoldable pub working : Text
unfolding text
working = text "working"

unfoldable pub stalled : Text
unfolding text
stalled = text "stalled"

unfoldable pub serving : Text
unfolding text
serving = text "serving"

unfoldable pub everything : Text
unfolding text
everything = text "all"

-- `ParseRecheckFilter`: `none` is the error
unfoldable pub parse_recheck_filter : Text → Option Text
unfolding broken working stalled serving everything eq_text trim_space to_lower
parse_recheck_filter s =
    let f = to_lower (trim_space s) in
    if eq_text f broken
    then some f
    else if eq_text f working
    then some f
    else if eq_text f stalled
    then some f
    else if eq_text f serving
    then some f
    else if eq_text f everything
    then some f
    else none

abbrev pub apex_serves : Record → Bool
apex_serves r = leb 200 r.apex.http && ltb r.apex.http 400 && r.apex.tls == Tls.ok

-- the method `matches` of a filter
unfoldable pub matches : Text → Record → Bool
unfolding broken working stalled serving everything eq_text
matches f r =
    if r.status == Status.unattempted
    then false
    else if eq_text f broken
    then conclusive r && apex_serves r && not (www_supported r)
    else if eq_text f working
    then conclusive r && apex_serves r && www_supported r
    else if eq_text f stalled
    then not (conclusive r)
    else if eq_text f serving
    then apex_serves r
    else if eq_text f everything
    then true
    else false

-- The loop of `RecheckIndices` over the indices left, with the count of matches seen so far.
unfoldable pub select : Results → Text → ℕ → ℕ → List ℕ → List ℕ
select prev f stride seen [] = []
select prev f stride seen (i ∷ is) = elim (matches f (prev.get i)) [
  | false ↦ select prev f stride seen is
  | true ↦
      let rest = select prev f stride (seen + 1) is in if seen % stride == 0 then i ∷ rest else rest
]

-- `RecheckIndices`
unfoldable pub recheck_indices : Results → Text → ℕ → List ℕ
unfolding select
recheck_indices prev f stride =
    select prev f (if ltb stride 1 then 1 else stride) 0 (range prev.len)
