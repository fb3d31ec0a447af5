-- ===== src/Metrics/Unordered.antt =====
-- internal/metrics/metrics.go: the workers finish in no fixed order, and the counters do not depend on it.
use mathlib.Core.List.{Perm, foldr}
use mathlib.Core.List.Perm
use www_scanner.Prelude.{
  ℕ, zero, suc, ◌+◌, ◌/◌, ◌≡◌, refl, sym, ap, ◌∙◌, not, List, [], ◌∷◌, if◌then◌else◌, ◌==◌, Text,
  text, eq_text, arith,
}
use www_scanner.Prelude.Counts.{number_key, text_key, count_of, count_of-inc}
use www_scanner.Record.{Record, conclusive, stall}
use www_scanner.Record.Status
use www_scanner.Record.Flags
use www_scanner.Metrics.Histogram
use www_scanner.Metrics.Histogram.{Histogram, bucket_of, bump}
use www_scanner.Metrics.Collector.{Collector, observe}

-- What a reader can ask of a collector: its counters, and the count of each key of its maps, whatever the order in
-- which the maps hold their keys.
pub record Totals : Type 0 where
  pub completed : ℕ
  pub aborted : ℕ
  pub conclusive_probes : ℕ
  pub hist : Histogram
  pub stalls : Text → ℕ
  pub resolves : ℕ → ℕ
  pub tls_out : ℕ → ℕ
  pub canon : ℕ → ℕ
  pub wildcard : ℕ

abbrev pub totals : Collector → Totals
totals c = record {
  completed = c.completed;
  aborted = c.aborted;
  conclusive_probes = c.conclusive_probes;
  hist = c.hist;
  stalls = λ k. count_of k c.stalls;
  resolves = λ k. count_of k c.resolves;
  tls_out = λ k. count_of k c.tls_out;
  canon = λ k. count_of k c.canon;
  wildcard = c.wildcard;
}

-- finished probes, each with its duration in microseconds
abbrev pub Finished : Type 0
Finished = Record × ℕ

-- The calls of `Observe`, the last one first.
abbrev pub observe_all : List Finished → Collector → Collector
observe_all probes c = foldr (λ p c'. observe p.0 p.1 c') c probes

-- what one probe adds to the totals
unfoldable pub add_probe : Finished → Totals → Totals
add_probe (r, us) t = record {
  completed = t.completed + 1;
  aborted = if r.status == Status.aborted then t.aborted + 1 else t.aborted;
  conclusive_probes = if conclusive r then t.conclusive_probes + 1 else t.conclusive_probes;
  hist = Histogram.observe us t.hist;
  stalls = λ k.
      t.stalls k
      + (if not (eq_text (stall r) (text "")) then (if eq_text (stall r) k then 1 else 0) else 0);
  resolves = λ k. t.resolves k + (if r.www.resolve == k then 1 else 0);
  tls_out = λ k. t.tls_out k + (if r.www.tls == k then 1 else 0);
  canon = λ k. t.canon k + (if r.canonical == k then 1 else 0);
  wildcard = if Flags.has r.flags Flags.wildcard then t.wildcard + 1 else t.wildcard;
}

bump_comm : (i j : ℕ) (ns : List ℕ) → bump i (bump j ns) ≡ bump j (bump i ns)
bump_comm i j [] = refl
bump_comm zero zero (n ∷ ns) = refl
bump_comm zero (suc j) (n ∷ ns) = refl
bump_comm (suc i) zero (n ∷ ns) = refl
bump_comm (suc i) (suc j) (n ∷ ns) = ap (λ l. n ∷ l) (bump_comm i j ns)

observe_hist_comm :
    (a b : ℕ) (h : Histogram)
    → Histogram.observe a (Histogram.observe b h) ≡ Histogram.observe b (Histogram.observe a h)
unfolding Histogram.observe
observe_hist_comm a b h =
    ground (arith, bump_comm (bucket_of (a / 1000)) (bucket_of (b / 1000)) h.buckets)

-- the totals are equal when each of them is
totals_ext :
    {s t : Totals}
    → s.completed ≡ t.completed
    → s.aborted ≡ t.aborted
    → s.conclusive_probes ≡ t.conclusive_probes
    → s.hist ≡ t.hist
    → ((k : Text) → s.stalls k ≡ t.stalls k)
    → ((k : ℕ) → s.resolves k ≡ t.resolves k)
    → ((k : ℕ) → s.tls_out k ≡ t.tls_out k)
    → ((k : ℕ) → s.canon k ≡ t.canon k)
    → s.wildcard ≡ t.wildcard
    → s ≡ t
totals_ext e₁ e₂ e₃ e₄ e₅ e₆ e₇ e₈ e₉ = λ i. record {
  completed = e₁ i;
  aborted = e₂ i;
  conclusive_probes = e₃ i;
  hist = e₄ i;
  stalls = λ k. e₅ k i;
  resolves = λ k. e₆ k i;
  tls_out = λ k. e₇ k i;
  canon = λ k. e₈ k i;
  wildcard = e₉ i;
}

pub add_probe_comm :
    (p q : Finished) (t : Totals) → add_probe p (add_probe q t) ≡ add_probe q (add_probe p t)
unfolding add_probe
add_probe_comm (r, us) (r', us') t =
    totals_ext refl (ground arith) (ground arith) (observe_hist_comm us us' t.hist)
      (λ k. omega arith) (λ k. omega arith) (λ k. omega arith) (λ k. omega arith) (ground arith)

totals-observe :
    (p : Finished) (c : Collector) → totals (observe p.0 p.1 c) ≡ add_probe p (totals c)
unfolding observe add_probe
totals-observe (r, us) c =
    totals_ext refl refl refl refl (λ k. ground (arith, count_of-inc (stall r) k c.stalls))
      (λ k. count_of-inc r.www.resolve k c.resolves) (λ k. count_of-inc r.www.tls k c.tls_out)
      (λ k. count_of-inc r.canonical k c.canon) refl

pub totals-observe_all :
    (ps : List Finished) (c : Collector) → totals (observe_all ps c) ≡ foldr add_probe (totals c) ps
totals-observe_all [] c = refl
totals-observe_all (p ∷ ps) c =
    totals-observe p (observe_all ps c) ∙ ap (add_probe p) (totals-observe_all ps c)

-- The order in which probes finish does not matter: after the same probes in another order, every counter, every bucket
-- of the histogram and the count of every key is the same.
pub observe_all-perm :
    (ps qs : List Finished) (c : Collector)
    → Perm ps qs
    → totals (observe_all ps c) ≡ totals (observe_all qs c)
observe_all-perm ps qs c h =
    totals-observe_all ps c
    ∙ Perm.foldr-eq (hlevel) add_probe add_probe_comm h (totals c)
    ∙ sym (totals-observe_all qs c)
