-- ===== src/Scan/Pool/Places.antt =====
-- internal/scan/scan.go: where a position of the corpus is during a run, from the work to the sink.
use www_scanner.Prelude.{
  ℕ, ◌+◌, ◌≤◌, ◌≡◌, ◌⊎◌, inl, inr, refl, ap, List, [], ◌∷◌, ◌++◌, ◌==◌, if◌then◌else◌, arith,
}
use www_scanner.Record.{Record}
use www_scanner.Metrics.Collector.{begin_probe, end_probe, observe, skip}
use www_scanner.Scan.Pool.{
  Options, Feeder, feeding, offering, leaving, closed_after, Worker, waiting, took, probing, probed,
  stored, ended, gone, Shared, store, Run, FeedMove, skips, offers, time_up, sends, interrupted,
  runs_out, closes, WorkMove, receives, begins, probes, stores, ends, observes, leaves,
}
use www_scanner.Scan.Pool.Accounts.{sum_by}

-- how often a position stands in a list
abbrev pub occurs : ℕ → List ℕ → ℕ
occurs j [] = 0
occurs j (i ∷ is) = (if i == j then 1 else 0) + occurs j is

pub occurs-append : (j : ℕ) (xs ys : List ℕ) → occurs j (xs ++ ys) ≡ occurs j xs + occurs j ys
occurs-append j [] ys = omega arith
occurs-append j (x ∷ xs) ys = omega (arith, occurs-append j xs ys)

-- with a feeder that may still hand it out
abbrev pub unsent : ℕ → Feeder → ℕ
unsent j (feeding rest) = occurs j rest
unsent j (offering i rest) = (if i == j then 1 else 0) + occurs j rest
unsent j (leaving rest) = 0
unsent j (closed_after rest) = 0

-- with a worker that has not yet written
abbrev pub unwritten : ℕ → Worker → ℕ
unwritten j waiting = 0
unwritten j (took i) = if i == j then 1 else 0
unwritten j (probing i) = if i == j then 1 else 0
unwritten j (probed i r) = if i == j then 1 else 0
unwritten j (stored i r) = 0
unwritten j (ended i r) = 0
unwritten j gone = 0

-- with a worker that has written and not yet counted
abbrev pub uncounted : ℕ → Worker → ℕ
uncounted j waiting = 0
uncounted j (took i) = 0
uncounted j (probing i) = 0
uncounted j (probed i r) = 0
uncounted j (stored i r) = if i == j then 1 else 0
uncounted j (ended i r) = if i == j then 1 else 0
uncounted j gone = 0

-- in how many places a position is from which it can still be written
abbrev pub unsettled : ℕ → Run → ℕ
unsettled j s = unsent j s.feeder + occurs j s.shared.buffer + sum_by (unwritten j) s.pool

pub feed-unsettled :
    {opts : Options} {capacity : ℕ} {s t : Shared} {f g : Feeder}
    → FeedMove opts capacity s f t g
    → (j : ℕ) → unsent j g + occurs j t.buffer ≤ unsent j f + occurs j s.buffer
unfolding skip
feed-unsettled (skips e) j = omega arith
feed-unsettled (offers e) j = omega arith
feed-unsettled (time_up e t) j = omega arith
feed-unsettled {s = s} (sends {idx} h) j = omega (arith, occurs-append j s.buffer (idx ∷ []))
feed-unsettled interrupted j = omega arith
feed-unsettled runs_out j = omega arith
feed-unsettled closes j = omega arith

pub feed-out :
    {opts : Options} {capacity : ℕ} {s t : Shared} {f g : Feeder}
    → FeedMove opts capacity s f t g
    → t.out ≡ s.out
feed-out (skips e) = refl
feed-out mv = refl

-- A worker takes a position from the channel, and counts it once when it has written it.
pub work-unsettled :
    {s t : Shared} {w v : Worker}
    → WorkMove s w t v
    → (j : ℕ)
    → (occurs j t.buffer + unwritten j v ≤ occurs j s.buffer + unwritten j w)
      × (occurs j t.buffer + unwritten j v + uncounted j v
          ≤ occurs j s.buffer + unwritten j w + uncounted j w)
unfolding begin_probe end_probe observe
work-unsettled (receives {idx} {rest} e) j = omega (arith, ap (occurs j) e)
work-unsettled begins j = omega arith
work-unsettled (probes r ok_rec) j = omega arith
work-unsettled stores j = omega arith
work-unsettled ends j = omega arith
work-unsettled (observes us h) j = omega arith
work-unsettled (leaves e l) j = omega arith

-- A move of a worker leaves the sink as it is or writes one record.
pub work-out :
    {s t : Shared} {w v : Worker}
    → WorkMove s w t v
    → (t.out ≡ s.out)
      ⊎ ((idx : ℕ) × (rec : Record) × (w ≡ probed idx rec) × (t.out ≡ store s.out idx rec))
work-out (stores {idx} {rec}) = inr (idx, rec, refl, refl)
work-out mv = inl refl
