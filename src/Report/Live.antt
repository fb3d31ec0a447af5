-- ===== src/Report/Live.antt =====
-- internal/metrics/metrics.go against internal/report/report.go: what a run shows of its probes, and what the report makes
-- of the file that it leaves.
use mathlib.Core.List.{Perm, foldr}
use www_scanner.Prelude.{
  ℕ, ◌≡◌, ◌≢◌, refl, sym, ap, ◌∙◌, subst, List, [], ◌∷◌, map, range, min, All, arith,
}
use www_scanner.Prelude.Counts.{number_key, text_key, count_of, count_of-inc}
use www_scanner.Record.Status
use www_scanner.Sink.Results.{Results}
use www_scanner.Metrics.Collector.{new_collector}
use www_scanner.Metrics.Unordered.{
  Totals, totals, Finished, observe_all, add_probe, add_probe_comm, totals-observe_all,
  observe_all-perm,
}
use www_scanner.Report.Summary.{Summary, tally, tally_all, empty_summary, build}

-- the two count the same probes, and the same of each outcome
pub record IsSame (t : Totals) (s : Summary) : Type 0 where
  pub attempted_same : t.completed ≡ s.attempted
  pub resolve_same : (k : ℕ) → t.resolves k ≡ count_of k s.www_resolve
  pub tls_same : (k : ℕ) → t.tls_out k ≡ count_of k s.www_tls
  pub canonical_same : (k : ℕ) → t.canon k ≡ count_of k s.canonical

abbrev pub IsMade : Finished → Type 0
IsMade p = p.0.status ≢ Status.unattempted

add_probe-IsSame :
    (p : Finished) (t : Totals) (s : Summary)
    → IsMade p
    → IsSame t s
    → IsSame (add_probe p t) (tally s p.0)
unfolding add_probe tally
add_probe-IsSame (r, us) t s made h = record {
  attempted_same = ground (arith, made, h.attempted_same);
  resolve_same =
      λ k. ground (arith, made, h.resolve_same k, count_of-inc r.www.resolve k s.www_resolve);
  tls_same = λ k. ground (arith, made, h.tls_same k, count_of-inc r.www.tls k s.www_tls);
  canonical_same =
      λ k. ground (arith, made, h.canonical_same k, count_of-inc r.canonical k s.canonical);
}

-- The first probe may be counted last.
foldr-first :
    (p : Finished) (ps : List Finished) (t : Totals)
    → foldr add_probe (add_probe p t) ps ≡ add_probe p (foldr add_probe t ps)
foldr-first p [] t = refl
foldr-first p (q ∷ ps) t =
    ap (add_probe q) (foldr-first p ps t) ∙ add_probe_comm q p (foldr add_probe t ps)

foldr-IsSame :
    (ps : List Finished) (t : Totals) (s : Summary)
    → All IsMade ps
    → IsSame t s
    → IsSame (foldr add_probe t ps) (tally_all s (map (λ p. p.0) ps))
unfolding tally_all
foldr-IsSame [] t s made h = h
foldr-IsSame (p ∷ ps) t s (made, rest) h =
    subst (λ t'. IsSame t' (tally_all (tally s p.0) (map (λ q. q.0) ps))) (foldr-first p ps t)
      (foldr-IsSame ps (add_probe p t) (tally s p.0) rest (add_probe-IsSame p t s made h))

empty-IsSame :
    (total population : ℕ) → IsSame (totals new_collector) (empty_summary total population)
empty-IsSame total population = record {
  attempted_same = refl;
  resolve_same = λ k. refl;
  tls_same = λ k. refl;
  canonical_same = λ k. refl;
}

-- The collector of a run and the report on its file agree. If a result file holds the records of attempted probes, in the
-- order of their positions, and a new collector observed the same probes in any other order, the report counts as many
-- attempted records as the collector completed probes, and for each outcome of DNS and of TLS on the www side and each
-- canonical class as many records as the collector.
pub observe_all-build :
    (domains : ℕ) (res : Results) (placed finished : List Finished)
    → map res.get (range (min domains res.len)) ≡ map (λ p. p.0) placed
    → All IsMade placed
    → Perm finished placed
    → IsSame (totals (observe_all finished new_collector)) (build domains res)
unfolding build
observe_all-build domains res placed finished stored made order =
    let n = min domains res.len in
    let counted : IsSame (foldr add_probe (totals new_collector) placed)
        (tally_all (empty_summary n domains) (map (λ p. p.0) placed)) =
      foldr-IsSame placed (totals new_collector) (empty_summary n domains) made
        (empty-IsSame n domains) in
    let same : foldr add_probe (totals new_collector) placed
        ≡ totals (observe_all finished new_collector) =
      sym (totals-observe_all placed new_collector)
      ∙ sym (observe_all-perm finished placed new_collector order) in
    rw stored (
      subst (λ t. IsSame t (tally_all (empty_summary n domains) (map (λ p. p.0) placed))) same
        counted)
