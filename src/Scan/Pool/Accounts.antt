-- ===== src/Scan/Pool/Accounts.antt =====
-- internal/scan/scan.go: in every run, each entry of the work is in one place.
use www_scanner.Prelude.{
  ℕ, zero, suc, ◌+◌, ◌≤◌, ◌≡◌, ◌⊎◌, inl, refl, subst, sym, ap, Bool, true, false, List, [], ◌∷◌,
  ◌++◌, some, length, length-append, length-replicate, replicate, arith,
}
use www_scanner.Record.{Record}
use www_scanner.Sink.Defs.{Mmap}
use www_scanner.Metrics.Collector.{Collector, new_collector, begin_probe, end_probe, observe, skip}
use www_scanner.Metrics.Tallies.{IsTallied, observe-IsTallied, new_collector-IsTallied}
use www_scanner.Scan.Pool.{
  Options, Feeder, feeding, offering, leaving, closed_after, Worker, waiting, took, probing, probed,
  stored, ended, gone, Shared, Run, FeedMove, skips, offers, time_up, sends, interrupted, runs_out,
  closes, WorkMove, receives, begins, probes, stores, ends, observes, leaves, Step, feed, work,
  start, workers_of, capacity_of, work_of,
}

module _ (weight : Worker → ℕ) where
  abbrev pub sum_by : List Worker → ℕ
  sum_by [] = 0
  sum_by (w ∷ ws) = weight w + sum_by ws

  pub sum_by-append : (a b : List Worker) → sum_by (a ++ b) ≡ sum_by a + sum_by b
  sum_by-append [] b = omega arith
  sum_by-append (w ∷ a) b = omega (arith, sum_by-append a b)

  pub sum_by-middle :
      (a b : List Worker) (w : Worker) → sum_by (a ++ (w ∷ b)) ≡ sum_by a + weight w + sum_by b
  sum_by-middle a b w = omega (arith, sum_by-append a (w ∷ b))

  pub sum_by-replicate : (n : ℕ) (w : Worker) → weight w ≡ 0 → sum_by (replicate n w) ≡ 0
  sum_by-replicate zero w h = refl
  sum_by-replicate (suc n) w h = omega (arith, h, sum_by-replicate n w h)

pub length-middle :
    (a b : List Worker) (w v : Worker) → length (a ++ (w ∷ b)) ≡ length (a ++ (v ∷ b))
length-middle a b w v = omega (arith, length-append a (w ∷ b), length-append a (v ∷ b))

-- a worker changes in place
pub sum_by-moved :
    (weight : Worker → ℕ) (a b : List Worker) (w v : Worker)
    → sum_by weight (a ++ (w ∷ b)) + weight v ≡ sum_by weight (a ++ (v ∷ b)) + weight w
sum_by-moved weight a b w v = omega (arith, sum_by-middle weight a b w, sum_by-middle weight a b v)

-- one for a worker between `Begin` and the call of what it returned
abbrev pub is_busy : Worker → ℕ
is_busy waiting = 0
is_busy (took i) = 0
is_busy (probing i) = 1
is_busy (probed i r) = 1
is_busy (stored i r) = 1
is_busy (ended i r) = 0
is_busy gone = 0

-- one for a worker that has received an index and not yet observed the probe
abbrev pub holds : Worker → ℕ
holds waiting = 0
holds (took i) = 1
holds (probing i) = 1
holds (probed i r) = 1
holds (stored i r) = 1
holds (ended i r) = 1
holds gone = 0

abbrev pub has_left : Worker → ℕ
has_left waiting = 0
has_left (took i) = 0
has_left (probing i) = 0
has_left (probed i r) = 0
has_left (stored i r) = 0
has_left (ended i r) = 0
has_left gone = 1

-- what the feeder has not handed out
abbrev pub remaining : Feeder → ℕ
remaining (feeding rest) = length rest
remaining (offering i rest) = suc (length rest)
remaining (leaving rest) = length rest
remaining (closed_after rest) = length rest

abbrev pub has_closed : Feeder → Bool
has_closed (feeding rest) = false
has_closed (offering i rest) = false
has_closed (leaving rest) = false
has_closed (closed_after rest) = true

moved :
    (a b : List Worker) (w v : Worker)
    → (length (a ++ (w ∷ b)) ≡ length (a ++ (v ∷ b)))
      × (sum_by holds (a ++ (w ∷ b)) + holds v ≡ sum_by holds (a ++ (v ∷ b)) + holds w)
      × (sum_by is_busy (a ++ (w ∷ b)) + is_busy v ≡ sum_by is_busy (a ++ (v ∷ b)) + is_busy w)
      × (sum_by has_left (a ++ (w ∷ b)) + has_left v ≡ sum_by has_left (a ++ (v ∷ b)) + has_left w)
moved a b w v = (
  length-middle a b w v,
  sum_by-moved holds a b w v,
  sum_by-moved is_busy a b w v,
  sum_by-moved has_left a b w v,
)

observe-counters :
    (r : Record) (us : ℕ) (c : Collector)
    → let o = observe r us c in
      (o.completed ≡ c.completed + 1) × (o.skipped ≡ c.skipped) × (o.in_flight ≡ c.in_flight)
unfolding observe
observe-counters r us c = (refl, refl, refl)

-- Of `total` entries each is skipped, not handed out, in the channel, with a worker, or done; the gauge counts the busy
-- workers; the channel is within its capacity; a worker leaves only when the channel is closed and empty; and the
-- breakdowns of the collector agree.
pub record IsAccounted (workers capacity entries : ℕ) (s : Run) : Type 0 where
  pub all_workers : length s.pool ≡ workers
  pub all_entries :
      s.shared.col.skipped
        + remaining s.feeder
        + length s.shared.buffer
        + sum_by holds s.pool
        + s.shared.col.completed
      ≡ entries
  pub gauge : s.shared.col.in_flight ≡ sum_by is_busy s.pool
  pub within_capacity : length s.shared.buffer ≤ capacity
  pub closing : s.shared.closed ≡ has_closed s.feeder
  pub leaving_last :
      (sum_by has_left s.pool ≡ 0) ⊎ ((s.shared.buffer ≡ []) × (s.shared.closed ≡ true))
  pub tallied : IsTallied s.shared.col

module _ (opts : Options) (workers capacity entries : ℕ) where
  feed-IsAccounted :
      {pool : List Worker} {s t : Shared} {f g : Feeder}
      → FeedMove opts capacity s f t g
      → IsAccounted workers capacity entries (record { shared = s; feeder = f; pool = pool })
      → IsAccounted workers capacity entries (record { shared = t; feeder = g; pool = pool })
  unfolding skip
  feed-IsAccounted (skips e) a = ground arith
  feed-IsAccounted (offers e) a = ground arith
  feed-IsAccounted (time_up e t) a = ground arith
  feed-IsAccounted {pool} {s} {t} (sends {idx} h) a =
      ground (arith, length-append s.buffer (idx ∷ []))
  feed-IsAccounted interrupted a = ground arith
  feed-IsAccounted runs_out a = ground arith
  feed-IsAccounted closes a = ground arith

  work-IsAccounted :
      (before after : List Worker) {w v : Worker} {s t : Shared} {f : Feeder}
      → WorkMove s w t v
      → IsAccounted workers capacity entries
          (record { shared = s; feeder = f; pool = before ++ (w ∷ after) })
      → IsAccounted workers capacity entries
          (record { shared = t; feeder = f; pool = before ++ (v ∷ after) })
  unfolding begin_probe end_probe
  work-IsAccounted b c (receives {idx} {rest} e) a =
      ground (arith, moved b c waiting (took idx), ap length e)
  work-IsAccounted b c (begins {idx}) a = ground (arith, moved b c (took idx) (probing idx))
  work-IsAccounted b c (probes {idx} r ok_rec) a =
      ground (arith, moved b c (probing idx) (probed idx r))
  work-IsAccounted b c (stores {idx} {rec}) a =
      ground (arith, moved b c (probed idx rec) (stored idx rec))
  work-IsAccounted b c (ends {idx} {rec}) a =
      ground (arith, moved b c (stored idx rec) (ended idx rec))
  work-IsAccounted b c {s = s} (observes {idx} {rec} us h) a = ground (
    arith,
    moved b c (ended idx rec) waiting,
    observe-IsTallied rec us s.col h a.tallied,
    observe-counters rec us s.col,
  )
  work-IsAccounted b c (leaves e l) a = ground (arith, moved b c waiting gone)

  pub Step-IsAccounted :
      {s t : Run}
      → Step opts capacity s t
      → IsAccounted workers capacity entries s
      → IsAccounted workers capacity entries t
  Step-IsAccounted (feed m) a = feed-IsAccounted m a
  Step-IsAccounted {s} (work before after e m) a =
      work-IsAccounted before after m
        (subst (λ pool. IsAccounted workers capacity entries (record s { pool = pool })) e a)

-- A run that the code can be in after a number of moves.
pub data Reach (opts : Options) (capacity : ℕ) (s : Run) : ℕ → Run → Type 0 where
  here : Reach opts capacity s 0 s
  next :
      {k : ℕ} {t u : Run}
      → Reach opts capacity s k t
      → Step opts capacity t u
      → Reach opts capacity s (suc k) u

module _ (opts : Options) (domains : ℕ) (out : Mmap) (s : Run)
    (started : start opts domains out ≡ some s) where
  pub start-cases : s ≡ record {
    shared = record { buffer = []; closed = false; out = out; col = new_collector };
    feeder = feeding (work_of opts domains);
    pool = replicate (workers_of opts) waiting;
  }
  unfolding start
  start-cases = ground arith

  start-IsAccounted :
      IsAccounted (workers_of opts) (capacity_of opts) (length (work_of opts domains)) s
  start-IsAccounted = rw start-cases (record {
    all_workers = length-replicate (workers_of opts) waiting;
    all_entries = omega (arith, sum_by-replicate holds (workers_of opts) waiting refl);
    gauge = sym (sum_by-replicate is_busy (workers_of opts) waiting refl);
    within_capacity = omega arith;
    closing = refl;
    leaving_last = inl (sum_by-replicate has_left (workers_of opts) waiting refl);
    tallied = new_collector-IsTallied;
  })

  -- In every run that the code can be in, each entry of the work is in one place, the gauge counts the probes under way,
  -- the channel is within its capacity, and the counters of the collector agree.
  pub run-IsAccounted :
      {k : ℕ} {t : Run}
      → Reach opts (capacity_of opts) s k t
      → IsAccounted (workers_of opts) (capacity_of opts) (length (work_of opts domains)) t
  run-IsAccounted here = start-IsAccounted
  run-IsAccounted (next r m) =
      Step-IsAccounted opts (workers_of opts) (capacity_of opts) (length (work_of opts domains)) m
        (run-IsAccounted r)
