-- ===== src/Metrics/Collector.antt =====
-- internal/metrics/metrics.go: `Collector` and the calls that change it. Its atomic counters and its maps
-- change under one call at a time here; the clock and the marked snapshot are left out.
use www_scanner.Prelude.{ℕ, ◌+◌, ◌-◌, [], if◌then◌else◌, ◌==◌, not, Text, text, eq_text}
use www_scanner.Prelude.Counts.{Counts, number_key, text_key, inc}
use www_scanner.Record.{Record, conclusive, stall}
use www_scanner.Record.Status
use www_scanner.Record.Flags
use www_scanner.Metrics.Histogram
use www_scanner.Metrics.Histogram.{Histogram, empty_histogram}

pub record Collector : Type 0 where
  pub in_flight : ℕ
  pub completed : ℕ
  pub skipped : ℕ
  pub aborted : ℕ
  pub conclusive_probes : ℕ
  pub hist : Histogram
  pub stalls : Counts Text
  pub resolves : Counts ℕ
  pub tls_out : Counts ℕ
  pub canon : Counts ℕ
  pub wildcard : ℕ

-- `NewCollector`
abbrev pub new_collector : Collector
new_collector = record {
  in_flight = 0;
  completed = 0;
  skipped = 0;
  aborted = 0;
  conclusive_probes = 0;
  hist = empty_histogram;
  stalls = [];
  resolves = [];
  tls_out = [];
  canon = [];
  wildcard = 0;
}

-- `Begin`
unfoldable pub begin_probe : Collector → Collector
begin_probe c = record c { in_flight = c.in_flight + 1 }

-- the function that `Begin` returns; the gauge is not zero when it is called
unfoldable pub end_probe : Collector → Collector
end_probe c = record c { in_flight = c.in_flight - 1 }

-- `Observe`, with the duration in microseconds
unfoldable pub observe : Record → ℕ → Collector → Collector
unfolding eq_text text
observe r us c = record c {
  completed = c.completed + 1;
  aborted = if r.status == Status.aborted then c.aborted + 1 else c.aborted;
  conclusive_probes = if conclusive r then c.conclusive_probes + 1 else c.conclusive_probes;
  hist = Histogram.observe us c.hist;
  stalls = if not (eq_text (stall r) (text "")) then inc (stall r) c.stalls else c.stalls;
  resolves = inc r.www.resolve c.resolves;
  tls_out = inc r.www.tls c.tls_out;
  canon = inc r.canonical c.canon;
  wildcard = if Flags.has r.flags Flags.wildcard then c.wildcard + 1 else c.wildcard;
}

-- `Skip`
unfoldable pub skip : Collector → Collector
skip c = record c { skipped = c.skipped + 1 }
