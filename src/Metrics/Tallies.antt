-- ===== src/Metrics/Tallies.antt =====
-- internal/metrics/metrics.go: the counters of a collector agree with each other.
use www_scanner.Prelude.{ℕ, ◌+◌, ◌^◌, ◌≤◌, ◌<◌, ◌≡◌, refl, false, text, eq_text_iff, arith}
use www_scanner.Prelude.Counts.{total, number_key, text_key, total-inc}
use www_scanner.Record.{Record, conclusive, stall}
use www_scanner.Record.Status
use www_scanner.Record.Agreement.{stall-conclusive}
use www_scanner.Metrics.Histogram
use www_scanner.Metrics.Histogram.{Histogram, IsFilled, observe-IsFilled}
use www_scanner.Metrics.Collector.{Collector, new_collector, observe}

-- Every finished probe is counted once in each breakdown, and is conclusive or stalled, never both; an aborted one is
-- stalled.
pub record IsTallied (c : Collector) : Type 0 where
  pub by_resolve : total c.resolves ≡ c.completed
  pub by_tls : total c.tls_out ≡ c.completed
  pub by_canonical : total c.canon ≡ c.completed
  pub by_evidence : c.conclusive_probes + total c.stalls ≡ c.completed
  pub aborted_stalled : c.aborted ≤ total c.stalls
  pub by_latency : c.hist.count ≡ c.completed
  pub filled : IsFilled c.hist
  pub some_wildcard : c.wildcard ≤ c.completed

pub new_collector-IsTallied : IsTallied new_collector
unfolding total
new_collector-IsTallied = record {
  by_resolve = refl;
  by_tls = refl;
  by_canonical = refl;
  by_evidence = refl;
  aborted_stalled = omega arith;
  by_latency = refl;
  filled = record { all_buckets = refl; all_samples = refl };
  some_wildcard = omega arith;
}

aborted-inconclusive : (r : Record) → r.status ≡ Status.aborted → conclusive r ≡ false
unfolding conclusive
aborted-inconclusive r h = ground arith

-- `Observe` keeps the counters in agreement.
pub observe-IsTallied :
    (r : Record) (us : ℕ) (c : Collector) → us < 2 ^ 63 → IsTallied c → IsTallied (observe r us c)
unfolding observe Histogram.observe
observe-IsTallied r us c h t =
    let evidence = stall-conclusive r in
    record {
      by_resolve = omega (arith, total-inc r.www.resolve c.resolves, t.by_resolve);
      by_tls = omega (arith, total-inc r.www.tls c.tls_out, t.by_tls);
      by_canonical = omega (arith, total-inc r.canonical c.canon, t.by_canonical);
      by_evidence = ground (
        arith,
        evidence,
        eq_text_iff (stall r) (text ""),
        total-inc (stall r) c.stalls,
        t.by_evidence,
      );
      aborted_stalled = ground (
        arith,
        evidence,
        eq_text_iff (stall r) (text ""),
        total-inc (stall r) c.stalls,
        aborted-inconclusive r,
        t.aborted_stalled,
      );
      by_latency = omega (arith, t.by_latency);
      filled = observe-IsFilled us c.hist h t.filled;
      some_wildcard = ground (arith, t.some_wildcard);
    }
