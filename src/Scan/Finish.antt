-- ===== src/Scan/Finish.antt =====
-- internal/scan/scan.go: `startReporters`, as what it prints and flushes at each event, and what `Run` does after the feed.
use www_scanner.Prelude.{
  ℕ, suc, Bool, ◌&&◌, List, [], ◌∷◌, ◌++◌, Option, none, some, if◌then◌else◌, Text, text,
}
use www_scanner.Prelude.Decimal.{format_int}
use www_scanner.Prelude.Strings.{pad_right}
use www_scanner.Metrics.Collector.{Collector}
use www_scanner.Sink.{Error, Faults, Mmap, sync}
use www_scanner.Scan.Pool.{Options, Run}

-- `DefaultOptions`, with its intervals in seconds
pub record Defaults : Type 0 where
  pub workers : ℕ
  pub progress_every : ℕ
  pub sync_every : ℕ

abbrev pub default_options : Defaults
default_options = record { workers = 200; progress_every = 2; sync_every = 30 }

-- What a reporter selects next: its ticker, with the progress line of that moment, the channel that `stop` closes, or the
-- end of the context.
pub data Event : Type 0 where
  ticked : Text → Event
  stopped : Event
  cancelled : Event

-- `"\r%-140s"`
abbrev over_line : Text → Text
over_line line = text "\r" ++ pad_right 140 line

-- the goroutine of the progress line: what it prints
unfoldable pub print_progress : List Event → Text
unfolding text pad_right
print_progress [] = []
print_progress (ticked line ∷ events) = over_line line ++ print_progress events
print_progress (stopped ∷ events) = over_line [] ++ text "\r"
print_progress (cancelled ∷ events) = []

-- the goroutine of the flush: the results of its calls of `Sync`, which it ignores
unfoldable pub flush : (ℕ → Faults) → Mmap → ℕ → List Event → List (Option Error)
flush os out k [] = []
flush os out k (ticked line ∷ events) = sync (os k) out ∷ flush os out (suc k) events
flush os out k (stopped ∷ events) = []
flush os out k (cancelled ∷ events) = []

-- `startReporters`, of whether there is a writer and of the two intervals: what is printed and what is flushed
unfoldable pub start_reporters :
    Bool → Bool → Bool → (ℕ → Faults) → Mmap → List Event → List Event → Text × List (Option Error)
unfolding print_progress flush
start_reporters has_writer prints flushes os out print_events flush_events = (
  if has_writer && prints then print_progress print_events else [],
  if flushes then flush os out 0 flush_events else [],
)

-- what `Run` prints when its time box ends the feed, with the number of the domains that it fed
unfoldable pub time_box_line : Options → Bool → ℕ → Text
unfolding text pad_right
time_box_line opts has_writer fed =
    if opts.timed && has_writer
    then over_line []
      ++ text "\r  time box reached after "
      ++ format_int fed
      ++ text " dispatched; draining in-flight...\n"
    else []

-- the error that `Run` returns after the feed
pub data RunError : Type 0 where
  final_sync : Error → RunError
  context_error : RunError

-- the end of `Run`, of whether the context has ended: the collector and the error
unfoldable pub finish : Faults → Bool → Run → Collector × Option RunError
finish os cancelled_run s = (
  s.shared.col,
  elim (sync os s.shared.out) [
    | some e ↦ some (final_sync e)
    | none ↦ if cancelled_run then some context_error else none
  ],
)
