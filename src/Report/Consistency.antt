-- ===== src/Report/Consistency.antt =====
-- internal/report/report.go: the numbers of a summary add up, and agree with the recheck filters.
use www_scanner.Prelude.{
  ℕ, suc, ◌+◌, ◌≡◌, refl, ap, List, [], ◌∷◌, map, range, min, length, length-count_from, arith,
}
use www_scanner.Prelude.Counts.{total, total-inc, number_key, text_key}
use www_scanner.Record.{Record, registration_state}
use www_scanner.Sink.Results.{Results}
use www_scanner.Report.Summary.{Summary, broken_reason, tally, tally_all, empty_summary, build}

-- What the counts of a summary say together, after the given number of rounds.
pub record IsConsistent (rounds : ℕ) (s : Summary) : Type 0 where
  pub all_counted : s.attempted + s.unattempted ≡ rounds
  pub serving_split : s.www_unknown + s.www_supported_of_serving + s.www_broken ≡ s.apex_serves
  pub reasons_add_up : total s.broken_reason ≡ s.www_broken
  pub registration_adds_up : total s.registration ≡ s.attempted
  pub apex_resolve_adds_up : total s.apex_resolve ≡ s.attempted
  pub www_resolve_adds_up : total s.www_resolve ≡ s.attempted
  pub www_tls_adds_up : total s.www_tls ≡ s.attempted
  pub www_http_adds_up : total s.www_http ≡ s.attempted
  pub canonical_adds_up : total s.canonical ≡ s.attempted
  pub rr_types_adds_up : total s.rr_types ≡ s.attempted

tally-IsConsistent :
    (n : ℕ) (s : Summary) (r : Record) → IsConsistent n s → IsConsistent (suc n) (tally s r)
unfolding tally
tally-IsConsistent n s r c = ground (
  arith,
  total-inc (broken_reason r) s.broken_reason,
  total-inc (registration_state r) s.registration,
  total-inc r.apex.resolve s.apex_resolve,
  total-inc r.www.resolve s.www_resolve,
  total-inc r.www.tls s.www_tls,
  total-inc r.www.http s.www_http,
  total-inc r.canonical s.canonical,
  total-inc r.www.rr_types s.rr_types,
)

tally_all-IsConsistent :
    (n m : ℕ) (s : Summary) (rs : List Record)
    → n + length rs ≡ m
    → IsConsistent n s
    → IsConsistent m (tally_all s rs)
unfolding tally_all
tally_all-IsConsistent n m s [] e c = let e' : n ≡ m = omega arith in rw (← e') c
tally_all-IsConsistent n m s (r ∷ rs) e c =
    tally_all-IsConsistent (suc n) m (tally s r) rs (omega arith) (tally-IsConsistent n s r c)

length-map_get : (res : Results) (is : List ℕ) → length (map res.get is) ≡ length is
length-map_get res [] = refl
length-map_get res (i ∷ is) = ap suc (length-map_get res is)

-- In the summary of any results, every record is either attempted or not; a serving apex is counted
-- once, as unknown, working or broken; the reasons add up to the broken ones; and each of the other
-- seven tables adds up to the attempted records.
pub build-IsConsistent :
    (domains : ℕ) (res : Results) → IsConsistent (min domains res.len) (build domains res)
unfolding build
build-IsConsistent domains res =
    let n = min domains res.len in
    tally_all-IsConsistent 0 n (empty_summary n domains) (map res.get (range n))
      (omega (arith, length-map_get res (range n), length-count_from 0 n))
      (unfold total in omega arith)
