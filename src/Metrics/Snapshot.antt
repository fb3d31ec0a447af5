-- ===== src/Metrics/Snapshot.antt =====
-- internal/metrics/metrics.go: `Snapshot` and what is printed of it, `ProgressLine`, `WriteSummary` and `Distribution`.
-- Floating point is a type with the operations that the code uses, a parameter; so are the texts of durations. Durations
-- are in microseconds, but for quantiles, which are in milliseconds.
use www_scanner.Prelude.{
  ℕ, suc, ◌+◌, ◌-◌, ◌^◌, Bool, List, [], ◌∷◌, ◌++◌, ltb, ◌==◌, if◌then◌else◌, replicate, Text, text,
}
use www_scanner.Prelude.Counts.{Counts}
use www_scanner.Prelude.Decimal.{format_int}
use www_scanner.Prelude.Strings.{pad_left, pad_right}
use www_scanner.Record.Resolve
use www_scanner.Record.Tls
use www_scanner.Record.Canonical
use www_scanner.Metrics.Histogram.{Histogram, mean}
use www_scanner.Metrics.Collector.{Collector}
use www_scanner.Metrics.Summaries.{quantile, format_counts}

-- `Snapshot`
pub record Snapshot (Float : Type 0) : Type 0 where
  pub elapsed : ℕ
  pub completed : ℕ
  pub skipped : ℕ
  pub aborted : ℕ
  pub in_flight : ℕ
  pub rate : Float
  pub p50 : ℕ
  pub p90 : ℕ
  pub p99 : ℕ
  pub mean : ℕ
  pub little_n : Float
  pub conclusive : ℕ
  pub effective_rate : Float
  pub validity : Float
  pub stalls : Counts Text

-- What the code does with float64: the quotient of two counts, a count per second of a duration, the product of a rate and
-- the seconds of a duration, the targets of the three quantiles, the comparisons, and the texts.
pub record Arithmetic (Float : Type 0) : Type 0 where
  pub zero_float : Float
  pub quotient : ℕ → ℕ → Float
  pub per_second : ℕ → ℕ → Float
  pub times_seconds : Float → ℕ → Float
  pub target_50 : ℕ → ℕ
  pub target_90 : ℕ → ℕ
  pub target_99 : ℕ → ℕ
  pub is_positive : Float → Bool
  pub below_floor : Float → Bool  -- `< CensusValidityFloor`
  pub is_idle : Float → ℕ → Bool  -- `< float64(workers)*0.7`
  pub fixed_0 : Float → Text
  pub fixed_1 : Float → Text
  pub percent_0 : Float → Text  -- `%.0f` of a hundred times as much
  pub percent_1 : Float → Text
  pub percent_wide : Float → Text  -- `%6.2f` of that
  pub percent_five : Float → Text  -- `%5.1f` of that
  pub time_left : ℕ → Float → Text
  pub bar_length : Float → ℕ  -- `int(frac*50)+1`

module _ {Float : Type 0} (a : Arithmetic Float) where
  -- `(*Collector).Snapshot`, of the time since the start
  unfoldable pub snapshot : ℕ → Collector → Snapshot Float
  unfolding quantile mean
  snapshot elapsed c =
      let rate = if ltb 0 elapsed then a.per_second c.completed elapsed else a.zero_float in
      record {
        elapsed = elapsed;
        completed = c.completed;
        skipped = c.skipped;
        aborted = c.aborted;
        in_flight = c.in_flight;
        rate = rate;
        p50 = quantile a.target_50 c.hist;
        p90 = quantile a.target_90 c.hist;
        p99 = quantile a.target_99 c.hist;
        mean = mean c.hist;
        little_n = a.times_seconds rate (mean c.hist);
        conclusive = c.conclusive_probes;
        effective_rate =
            if ltb 0 elapsed then a.per_second c.conclusive_probes elapsed else a.zero_float;
        validity =
            if ltb 0 c.completed then a.quotient c.conclusive_probes c.completed else a.zero_float;
        stalls = c.stalls;
      }

  module _ (duration_us duration_ms : ℕ → Text) where
    -- the estimate of the time left
    abbrev pub eta : Snapshot Float → ℕ → Text
    eta s total =
        if a.is_positive s.rate
        then (if ltb (s.completed + s.skipped) total
            then a.time_left (total - (s.completed + s.skipped)) s.rate
            else text "0s")
        else text "?"

    -- `ProgressLine`
    unfoldable pub progress_line : Snapshot Float → ℕ → ℕ → Text
    unfolding text
    progress_line s total workers =
        a.percent_wide
          (if ltb 0 total then a.quotient (s.completed + s.skipped) total else a.zero_float)
        ++ text "% "
        ++ format_int (s.completed + s.skipped)
        ++ text "/"
        ++ format_int total
        ++ text "  "
        ++ a.fixed_0 s.rate
        ++ text "/s ("
        ++ a.fixed_0 s.effective_rate
        ++ text " eff, "
        ++ a.percent_0 s.validity
        ++ text "% valid)  inflight "
        ++ format_int s.in_flight
        ++ text "/"
        ++ format_int workers
        ++ text " (N "
        ++ a.fixed_0 s.little_n
        ++ text ")  p50 "
        ++ duration_ms s.p50
        ++ text " p99 "
        ++ duration_ms s.p99
        ++ text "  eta "
        ++ eta s total

    -- the three bytes of the dash
    abbrev pub em_dash : Text
    em_dash = 226 ∷ 128 ∷ 148 ∷ []

    -- the warning of a run that is no census
    abbrev pub no_census : Snapshot Float → Text
    no_census s =
        text "\n  !! VALIDITY "
        ++ a.percent_1 s.validity
        ++ text "% "
        ++ em_dash
        ++ text " NOT A CENSUS.\n     "
        ++ format_int (s.completed - s.conclusive)
        ++ text " probes timed out somewhere on the ladder. A timeout is not a finding,\n"
        ++ text "     it is the absence of one, and at this concurrency most of them are ours\n"
        ++ text "     rather than the remote end's. Lower -workers and rerun before believing\n"
        ++ text "     any percentage derived from this.\n"

    -- `WriteSummary`
    unfoldable pub write_summary : ℕ → ℕ → Collector → Text
    unfolding snapshot format_counts text
    write_summary elapsed workers c =
        let s = snapshot elapsed c in
        text "\nscan complete in "
        ++ duration_us s.elapsed
        ++ text "\n  probed        "
        ++ format_int s.completed
        ++ text "  ("
        ++ format_int s.skipped
        ++ text " skipped, "
        ++ format_int s.aborted
        ++ text " aborted)\n  throughput    "
        ++ a.fixed_1 s.rate
        ++ text " domains/sec raw\n  effective     "
        ++ a.fixed_1 s.effective_rate
        ++ text
            " domains/sec conclusively classified  <- the number that means anything\n  validity      "
        ++ a.percent_1 s.validity
        ++ text "%  ("
        ++ format_int s.conclusive
        ++ text " of "
        ++ format_int s.completed
        ++ text " probes are evidence about a domain, not about the scanner)\n  latency       mean "
        ++ duration_us s.mean
        ++ text "  p50 "
        ++ duration_ms s.p50
        ++ text "  p90 "
        ++ duration_ms s.p90
        ++ text "  p99 "
        ++ duration_ms s.p99
        ++ text "\n  little's N    "
        ++ a.fixed_0 s.little_n
        ++ text " sustained against "
        ++ format_int workers
        ++ text " workers"
        ++ (if a.is_idle s.little_n workers
            then text "  <- workers are idle; something is serializing"
            else [])
        ++ text "\n"
        ++ (if a.below_floor s.validity then no_census s else [])
        ++ text "\n  www dns:  "
        ++ format_counts c.resolves Resolve.string
        ++ text "\n  www tls:  "
        ++ format_counts c.tls_out Tls.string
        ++ text "\n  canonical: "
        ++ format_counts c.canon Canonical.string
        ++ text "\n"
        ++ (if ltb 0 c.wildcard
            then text "  wildcard zones: "
              ++ format_int c.wildcard
              ++ text " (their www resolving is not evidence of support)\n"
            else [])

    -- the loop of `Distribution` over the buckets left, with the index of the first of them
    unfoldable pub bars : ℕ → ℕ → List ℕ → Text
    unfolding pad_left pad_right text
    bars total i [] = []
    bars total i (n ∷ ns) =
        let rest = bars total (suc i) ns in
        if n == 0
        then rest
        else text "  "
          ++ pad_left 7 (duration_ms (2 ^ i))
          ++ text "-"
          ++ pad_right 7 (duration_ms (2 ^ suc i))
          ++ text " "
          ++ pad_left 8 (format_int n)
          ++ text " "
          ++ a.percent_five (a.quotient n total)
          ++ text "% "
          ++ replicate (a.bar_length (a.quotient n total)) b'#'
          ++ text "\n"
          ++ rest

    -- `Distribution`
    unfoldable pub distribution : Histogram → Text
    unfolding bars text
    distribution h = if h.count == 0 then text "(no samples)" else bars h.count 0 h.buckets
