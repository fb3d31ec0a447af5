-- ===== src/Command/Finish.antt =====
-- cmd/wwwscan/main.go: what `cmdScan` prints around its run, and what it makes of how the run ended.
use www_scanner.Prelude.{
  ℕ, inl, inr, Option-cases, ◌*◌, ◌≡◌, refl, true, false, ◌&&◌, ◌∷◌, Bool, not, List, [], ◌++◌,
  Option, none, some, ltb, if◌then◌else◌, Text, text, eq_text,
}
use www_scanner.Prelude.Decimal.{format_int}
use www_scanner.Prelude.Integers.{format_signed}
use www_scanner.Prelude.Strings.{join}
use www_scanner.Record.{width}
use www_scanner.Metrics.Collector.{Collector}
use www_scanner.Metrics.Snapshot.{distribution}
use www_scanner.Sink.{Error, Faults, sync}
use www_scanner.Scan.Pool.{Run}
use www_scanner.Scan.Finish.{RunError, finish}
use www_scanner.Runmeta.{path}
use www_scanner.Command.Texts.{human_bytes}
use www_scanner.Command.World.{Corpus}
use www_scanner.Command.Plan.{Flags}

-- the three bytes of the dash
abbrev em_dash : Text
em_dash = 226 ∷ 128 ∷ 148 ∷ []

-- the lines of `cmdScan` before its run, of the servers and sockets of the resolver, GOMAXPROCS and the total
unfoldable pub banner : (ℕ → ℕ → Text) → Flags → Corpus → Bool → ℕ → List Text → ℕ → ℕ → ℕ → Text
unfolding eq_text text join human_bytes format_signed
banner one_decimal f c null_sink domains servers sockets max_procs total =
    text "corpus    "
    ++ f.corpus_path
    ++ text " ("
    ++ format_int domains
    ++ text " domains"
    ++ (if not (eq_text c.manifest.list_id []) then text ", tranco " ++ c.manifest.list_id else [])
    ++ text ")\n"
    ++ (if null_sink
        then text "sink      null (throughput run)\n"
        else text "sink      "
          ++ f.out_path
          ++ text " ("
          ++ format_int width
          ++ text " bytes/domain, "
          ++ human_bytes one_decimal (domains * width)
          ++ text " total)\n")
    ++ (if ltb 0 sockets
        then text "resolver  "
          ++ join (text ", ") servers
          ++ text "  ("
          ++ format_int sockets
          ++ text " pooled sockets => "
          ++ format_int sockets
          ++ text " ephemeral ports)\n"
        else text "resolver  "
          ++ join (text ", ") servers
          ++ text "  (legacy: one socket per query "
          ++ em_dash
          ++ text " expect port exhaustion above ~5k workers)\n")
    ++ text "mode      "
    ++ f.mode
    ++ text "\nworkers   "
    ++ format_signed f.workers
    ++ text "  (GOMAXPROCS "
    ++ format_int max_procs
    ++ text ")\nscanning  "
    ++ format_int total
    ++ text " domains\n\n"

-- what `scan.Run` returns: the collector, which is nil if the sink is too small, and whether there is an error
pub record RunEnd : Type 0 where
  pub col : Option Collector
  pub failed : Bool

-- what it returns after the feed
abbrev pub end_of : Collector × Option RunError → RunEnd
end_of (col, none) = record { col = some col; failed = false }
end_of (col, some e) = record { col = some col; failed = true }

-- what `cmdScan` leaves: the text that it prints, whether it calls `runmeta.Write`, and whether it returns an error
pub record ScanEnd : Type 0 where
  pub printed : Text
  pub writes_metadata : Bool
  pub fails : Bool

-- the line about the metadata, of the error of `runmeta.Write`
abbrev pub provenance_line : Text → Option Text → Text
provenance_line out_path none = text "\nprovenance written to " ++ path out_path ++ text "\n"
provenance_line out_path (some e) = text "warning: " ++ e ++ text "\n"

-- the line after a run with an error
abbrev pub interrupted_line : Text
interrupted_line =
    text "\ninterrupted "
    ++ em_dash
    ++ text " rerun the same command to resume from where it stopped\n"

-- `cmdScan` after its run. `summary` and `distribution` are the texts of `WriteSummary` and `Histogram`; `meta_error` is the
-- error of `runmeta.Write`.
unfoldable pub after_run :
    (Collector → Text) → (Collector → Text) → Option Text → Flags → Bool → Bool → RunEnd → ScanEnd
unfolding text path
after_run summary distribution meta_error f null_sink histogram r =
    let shown : Text = elim r.col [ none ↦ [] | some c ↦ summary c ] in
    let has_col : Bool = elim r.col [ none ↦ false | some c ↦ true ] in
    let recorded = not null_sink && has_col in
    let noted = shown ++ (if recorded then provenance_line f.out_path meta_error else []) in
    if r.failed
    then record { printed = noted ++ interrupted_line; writes_metadata = recorded; fails = false }
    else record {
      printed =
          noted
          ++ (if histogram
              then text "\ncompletion time distribution:\n"
                ++ elim r.col [ none ↦ [] | some c ↦ distribution c ]
              else [])
          ++ (if not null_sink
              then text "\nresults in "
                ++ f.out_path
                ++ text " "
                ++ em_dash
                ++ text " wwwscan report -corpus "
                ++ f.corpus_path
                ++ text " -results "
                ++ f.out_path
                ++ text "\n"
              else []);
      writes_metadata = recorded;
      fails = false;
    }

-- A run whose final `Sync` fails is reported exactly like a run in the same state that Ctrl-C ended, whose `Sync` fails or
-- not: `cmdScan` prints the same text, writes the metadata in the same cases, and returns no error. So the error of
-- the sink is shown nowhere.
pub after_run-finish :
    (summary distribution : Collector → Text) (meta_error : Option Text) (f : Flags)
    (null_sink histogram : Bool) (os os' : Faults) (s : Run) (e : Error)
    → sync os s.shared.out ≡ some e
    → let report : Collector × Option RunError → ScanEnd =
        (λ r. after_run summary distribution meta_error f null_sink histogram (end_of r)) in
      (report (finish os false s) ≡ report (finish os' true s))
      × ((report (finish os false s)).fails ≡ false)
unfolding after_run finish
after_run-finish summary distribution meta_error f null_sink histogram os os' s e failed =
    elim (Option-cases (sync os' s.shared.out)) [
      | inl synced ↦ (rw (failed, synced, finish) refl, rw (failed, finish) refl)
      | inr (e', failed') ↦ (rw (failed, failed', finish) refl, rw (failed, finish) refl)
    ]
