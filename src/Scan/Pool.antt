-- ===== src/Scan/Pool.antt =====
-- internal/scan/scan.go: `Run`, as the moves of its feeder and its workers in any order. The progress
-- line, the periodic flush and the clock are left out.
pub mod Accounts
pub mod Ending
pub mod Progress
pub mod Held
pub mod Places
pub mod Written
pub mod Kept
pub mod Complete
pub mod Finished
mod Examples
use www_scanner.Prelude.{
  ℕ, zero, suc, ◌+◌, ◌*◌, ◌<◌, ◌≡◌, ◌≢◌, Bool, true, false, not, ◌&&◌, List, [], ◌∷◌, ◌++◌, Option,
  none, some, Result, ok, err, panic, length, range, replicate, ltb, ◌==◌, if◌then◌else◌,
}
use www_scanner.Record.{Record, IsEncodable}
use www_scanner.Record.Status
use www_scanner.Sink.Defs.{Mmap, write, len}
use www_scanner.Sink.Results.{Results, of_mmap}
use www_scanner.Metrics.Collector.{Collector, new_collector, begin_probe, end_probe, observe, skip}

-- `Options`, without the intervals of the reporters; `timed` is `Duration > 0`
pub record Options : Type 0 where
  pub workers : ℕ
  pub limit : ℕ
  pub indices : Option (List ℕ)
  pub timed : Bool
  pub resume : Bool

-- the feeder in its loop, in its last `select`, past the loop, and past `close(indices)`; what it has not handed
-- out goes along
pub data Feeder : Type 0 where
  feeding : List ℕ → Feeder
  offering : ℕ → List ℕ → Feeder
  leaving : List ℕ → Feeder
  closed_after : List ℕ → Feeder

-- a worker between the calls of its loop
pub data Worker : Type 0 where
  waiting : Worker
  took : ℕ → Worker
  probing : ℕ → Worker
  probed : ℕ → Record → Worker
  stored : ℕ → Record → Worker
  ended : ℕ → Record → Worker
  gone : Worker

-- what the goroutines share: the channel, the sink and the collector
pub record Shared : Type 0 where
  pub buffer : List ℕ
  pub closed : Bool
  pub out : Mmap
  pub col : Collector

-- `opts.Resume && out.Get(idx).Status != StatusUnattempted`. As for `store`, the sink is taken to be open: of one that is
-- not mapped the code panics here, and this reads the zero record.
unfoldable pub should_skip : Options → Mmap → ℕ → Bool
unfolding of_mmap
should_skip opts out idx = opts.resume && not (((of_mmap out).get idx).status == Status.unattempted)

-- `out.Write(idx, rec)`, whose error is only printed. The work is taken to be positions of the corpus, below the length
-- of an open sink, where `Write` does not panic; on a sink that is not mapped the code panics here, and this changes
-- nothing. The theorems about records in a run have the open sink among their hypotheses.
unfoldable pub store : Mmap → ℕ → Record → Mmap
store out idx rec = elim (write out idx rec) [ ok out' ↦ out' | err _ ↦ out | panic ↦ out ]

-- A move of the feeder, with the capacity of the channel. The time box ends the loop at either `select`, the context
-- at the second.
pub data FeedMove (opts : Options) (capacity : ℕ) (s : Shared)
    : Feeder → Shared → Feeder → Type 0 where
  skips :
      {idx : ℕ} {rest : List ℕ}
      → should_skip opts s.out idx ≡ true
      → FeedMove opts capacity s
          (feeding (idx ∷ rest))
          (record s { col = skip s.col })
          (feeding rest)
  offers :
      {idx : ℕ} {rest : List ℕ}
      → should_skip opts s.out idx ≡ false
      → FeedMove opts capacity s (feeding (idx ∷ rest)) s (offering idx rest)
  time_up :
      {idx : ℕ} {rest : List ℕ}
      → should_skip opts s.out idx ≡ false
      → opts.timed ≡ true
      → FeedMove opts capacity s (feeding (idx ∷ rest)) s (leaving (idx ∷ rest))
  sends :
      {idx : ℕ} {rest : List ℕ}
      → length s.buffer < capacity
      → FeedMove opts capacity s
          (offering idx rest)
          (record s { buffer = s.buffer ++ (idx ∷ []) })
          (feeding rest)
  interrupted :
      {idx : ℕ} {rest : List ℕ}
      → FeedMove opts capacity s (offering idx rest) s (leaving (idx ∷ rest))
  runs_out : FeedMove opts capacity s (feeding []) s (leaving [])
  closes :
      {rest : List ℕ}
      → FeedMove opts capacity s (leaving rest) (record s { closed = true }) (closed_after rest)

-- What `Probe` returns: a record whose numbers are within the types of its fields, and which says that it was attempted.
pub record IsProbed (rec : Record) : Type 0 where
  pub fits : IsEncodable rec
  pub attempted : rec.status ≢ Status.unattempted

-- A move of a worker. A probe may return any record that `Probe` can, and take any time.
pub data WorkMove (s : Shared) : Worker → Shared → Worker → Type 0 where
  receives :
      {idx : ℕ} {rest : List ℕ}
      → s.buffer ≡ idx ∷ rest
      → WorkMove s waiting (record s { buffer = rest }) (took idx)
  begins : {idx : ℕ} → WorkMove s (took idx) (record s { col = begin_probe s.col }) (probing idx)
  probes : {idx : ℕ} (rec : Record) → IsProbed rec → WorkMove s (probing idx) s (probed idx rec)
  stores :
      {idx : ℕ} {rec : Record}
      → WorkMove s (probed idx rec) (record s { out = store s.out idx rec }) (stored idx rec)
  ends :
      {idx : ℕ} {rec : Record}
      → WorkMove s (stored idx rec) (record s { col = end_probe s.col }) (ended idx rec)
  observes :
      {idx : ℕ} {rec : Record} (us : ℕ)
      → us < 9223372036854775808
      → WorkMove s (ended idx rec) (record s { col = observe rec us s.col }) waiting
  leaves : s.buffer ≡ [] → s.closed ≡ true → WorkMove s waiting s gone

pub record Run : Type 0 where
  pub shared : Shared
  pub feeder : Feeder
  pub pool : List Worker

pub data Step (opts : Options) (capacity : ℕ) (s : Run) : Run → Type 0 where
  feed :
      {sh : Shared} {f : Feeder}
      → FeedMove opts capacity s.shared s.feeder sh f
      → Step opts capacity s (record s { shared = sh; feeder = f })
  work :
      (before after : List Worker) {w w' : Worker} {sh : Shared}
      → s.pool ≡ before ++ (w ∷ after)
      → WorkMove s.shared w sh w'
      → Step opts capacity s (record s { shared = sh; pool = before ++ (w' ∷ after) })

-- `opts.Workers` after its default
abbrev pub workers_of : Options → ℕ
workers_of opts = if opts.workers == 0 then 1 else opts.workers

-- `opts.Workers*2`
abbrev pub capacity_of : Options → ℕ
capacity_of opts = workers_of opts * 2

-- `total` after the limit
abbrev pub total_of : Options → ℕ → ℕ
total_of opts domains = if ltb 0 opts.limit && ltb opts.limit domains then opts.limit else domains

-- `work`
abbrev pub work_of : Options → ℕ → List ℕ
work_of opts domains = elim opts.indices [
  | none ↦ range (total_of opts domains)
  | some indices ↦ indices
]

-- `Run` up to the feeder's loop, for a corpus with the given number of domains; `none` is the error of a sink that is
-- too small
unfoldable pub start : Options → ℕ → Mmap → Option Run
start opts domains out =
    if ltb (len out) (total_of opts domains)
    then none
    else some (record {
      shared = record { buffer = []; closed = false; out = out; col = new_collector };
      feeder = feeding (work_of opts domains);
      pool = replicate (workers_of opts) waiting;
    })
