-- ===== src/Command/BenchRows.antt =====
-- cmd/wwwscan/bench.go: what `cmdBench` prints around its sweep, a row for each measurement. The texts of durations and of
-- floating point numbers are parameters.
use www_scanner.Prelude.{
  ℕ, ◌*◌, ◌+◌, List, [], ◌++◌, length, replicate, map, ◌==◌, if◌then◌else◌, Text, text,
}
use www_scanner.Prelude.Decimal.{format_int}
use www_scanner.Prelude.Integers.{ℤ, pos, negsuc, format_signed, positive_part}
use www_scanner.Prelude.Strings.{join, pad_left, pad_right}
use www_scanner.Metrics.Snapshot.{Snapshot}
use www_scanner.Metrics.Summaries.{stall_summary}
use www_scanner.Command.Bench.{
  Row, Ending, completed, interrupted, exhausted, row_failed, crashed, max_workers, fd_warning,
}

-- `benchRow`
pub record BenchRow (Float : Type 0) : Type 0 where
  pub raw : Float
  pub eff : Float
  pub validity : Float
  pub little_n : Float
  pub probed : ℕ
  pub stalls : Text

-- what `benchOne` returns of the steady snapshot
unfoldable pub row_of : {Float : Type 0} → Snapshot Float → BenchRow Float
unfolding stall_summary
row_of s = record {
  raw = s.rate;
  eff = s.effective_rate;
  validity = s.validity;
  little_n = s.little_n;
  probed = s.completed;
  stalls = stall_summary s.stalls;
}

-- the two lines of the table's head
unfoldable pub table_head : Text
unfolding text pad_left pad_right
table_head =
    pad_right 8 (text "workers")
    ++ text " "
    ++ pad_right 8 (text "sockets")
    ++ text " "
    ++ pad_left 8 (text "raw/s")
    ++ text " "
    ++ pad_left 8 (text "eff/s")
    ++ text " "
    ++ pad_left 7 (text "valid")
    ++ text " "
    ++ pad_left 8 (text "little'sN")
    ++ text " "
    ++ pad_left 8 (text "probed")
    ++ text "  stalled on\n"
    ++ replicate 88 b'-'
    ++ text "\n"

-- the label of a number of sockets
unfoldable pub sockets_label : ℤ → Text
unfolding format_signed text
sockets_label (pos n) = if n == 0 then text "legacy" else format_signed (pos n)
sockets_label (negsuc n) = format_signed (negsuc n)

-- The texts of a rate as `%8.1f`, of a hundred times a share as `%6.1f`, and of a number as `%8.0f`.
pub record Formats (Float : Type 0) : Type 0 where
  pub rate : Float → Text
  pub share : Float → Text
  pub whole : Float → Text

module _ {Float : Type 0} (fmt : Formats Float) where
  -- one row of the table
  unfoldable pub table_row : ℤ → ℤ → BenchRow Float → Text
  unfolding sockets_label text pad_left pad_right format_signed
  table_row workers sockets row =
      pad_right 8 (format_signed workers)
      ++ text " "
      ++ pad_right 8 (sockets_label sockets)
      ++ text " "
      ++ fmt.rate row.raw
      ++ text " "
      ++ fmt.rate row.eff
      ++ text " "
      ++ fmt.share row.validity
      ++ text "% "
      ++ fmt.whole row.little_n
      ++ text " "
      ++ pad_left 8 (format_int row.probed)
      ++ text "  "
      ++ row.stalls
      ++ text "\n"

  -- the table of a sweep, with the measurement of each row
  unfoldable pub table : (Row → BenchRow Float) → List Row → Text
  unfolding table_head table_row
  table measure rows =
      table_head ++ join [] (map (λ r. table_row r.workers r.sockets (measure r)) rows)

-- the lines of `cmdBench` before the sweep, of the durations of a run and of its drain in seconds
unfoldable pub preamble : (ℕ → Text) → List ℤ → List ℤ → ℕ → ℕ → Text → ℤ → Text → Text
unfolding text format_signed
preamble duration workers sockets seconds timeout corpus_path offset servers =
    let runs = length workers * length sockets in
    let drain = timeout + 5 in
    text "sweeping "
    ++ format_int runs
    ++ text " configurations x ("
    ++ duration seconds
    ++ text " + up to "
    ++ duration drain
    ++ text " drain) = about "
    ++ duration (runs * (seconds + drain))
    ++ text " total\ncorpus "
    ++ corpus_path
    ++ text ", starting at offset "
    ++ format_signed offset
    ++ text ", resolver "
    ++ servers
    ++ text "\n"

-- the lines of `reportFDLimit`, of the two limits
unfoldable pub fd_lines : ℕ → ℕ → List ℤ → Text
unfolding fd_warning max_workers positive_part format_signed text
fd_lines soft hard workers =
    let w = fd_warning soft workers in
    text "open files "
    ++ format_int soft
    ++ text " soft / "
    ++ format_int hard
    ++ text " hard; peak config needs about "
    ++ format_int (w.0)
    ++ text "\n"
    ++ (if w.1
        then text "WARNING: the soft limit is below what "
          ++ format_signed (max_workers (pos 0) workers)
          ++ text " workers need. Results above that\n"
          ++ text "         point measure the fd ceiling, not the network. Raise it with\n"
          ++ text "         'ulimit -n "
          ++ format_int hard
          ++ text "' before rerunning.\n"
        else [])
    ++ text "\n"

-- the lines at the end of a sweep
unfoldable pub closing_lines : Ending → Text
unfolding text
closing_lines completed =
    text "\neff/s is the number to compare: raw/s counts timeouts, which get cheaper as\n"
    ++ text "concurrency breaks the scan, so raw rewards exactly the failure to avoid.\n"
    ++ text "\nstalled on: dns = resolver rate limiting or an unreachable resolver;\n"
    ++ text "tcp = egress filtering, provider SYN limits, or a file-descriptor ceiling;\n"
    ++ text "tls = cpu starvation or the far end. These need opposite fixes.\n"
closing_lines interrupted = text "\nsweep interrupted; rows above are complete measurements\n"
closing_lines (exhausted used) = []
closing_lines row_failed = []
closing_lines crashed = []
