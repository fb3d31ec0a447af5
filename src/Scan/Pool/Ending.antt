-- ===== src/Scan/Pool/Ending.antt =====
-- internal/scan/scan.go: every run comes to an end.
use www_scanner.Prelude.{
  ℕ, zero, suc, ◌+◌, ◌*◌, ◌≤◌, ◌<◌, ◌≡◌, refl, ap, [], ◌∷◌, some, length, length-append, replicate,
  arith,
}
use www_scanner.Sink.Defs.{Mmap}
use www_scanner.Scan.Pool.{
  Options, Feeder, feeding, offering, leaving, closed_after, Worker, waiting, took, probing, probed,
  stored, ended, gone, Shared, Run, FeedMove, skips, offers, time_up, sends, interrupted, runs_out,
  closes, WorkMove, receives, begins, probes, stores, ends, observes, leaves, Step, feed, work,
  start, workers_of, capacity_of, work_of,
}
use www_scanner.Scan.Pool.Accounts.{sum_by, sum_by-moved, Reach, here, next, start-cases}

-- more than the moves that an entry can still cause
abbrev pub feeder_left : Feeder → ℕ
feeder_left (feeding rest) = 9 * length rest + 2
feeder_left (offering i rest) = 9 * length rest + 10
feeder_left (leaving rest) = 1
feeder_left (closed_after rest) = 0

abbrev pub worker_left : Worker → ℕ
worker_left waiting = 1
worker_left (took i) = 7
worker_left (probing i) = 6
worker_left (probed i r) = 5
worker_left (stored i r) = 4
worker_left (ended i r) = 3
worker_left gone = 0

abbrev pub moves_left : Run → ℕ
moves_left s = feeder_left s.feeder + 7 * length s.shared.buffer + sum_by worker_left s.pool

feed-decreases :
    {opts : Options} {capacity : ℕ} {s t : Shared} {f g : Feeder}
    → FeedMove opts capacity s f t g
    → feeder_left g + 7 * length t.buffer < feeder_left f + 7 * length s.buffer
feed-decreases (skips e) = omega arith
feed-decreases (offers e) = omega arith
feed-decreases (time_up e t) = omega arith
feed-decreases {s = s} (sends {idx} h) = omega (arith, length-append s.buffer (idx ∷ []))
feed-decreases interrupted = omega arith
feed-decreases runs_out = omega arith
feed-decreases closes = omega arith

work-decreases :
    {s t : Shared} {w v : Worker}
    → WorkMove s w t v
    → worker_left v + 7 * length t.buffer < worker_left w + 7 * length s.buffer
work-decreases (receives e) = omega (arith, ap length e)
work-decreases begins = omega arith
work-decreases (probes r ok_rec) = omega arith
work-decreases stores = omega arith
work-decreases ends = omega arith
work-decreases (observes us h) = omega arith
work-decreases (leaves e c) = omega arith

Step-decreases :
    {opts : Options} {capacity : ℕ} {s t : Run}
    → Step opts capacity s t
    → moves_left t < moves_left s
Step-decreases (feed m) = omega (arith, feed-decreases m)
Step-decreases {s = s} (work before after {w} {w'} e m) =
    omega (
      arith,
      work-decreases m,
      sum_by-moved worker_left before after w w',
      ap (sum_by worker_left) e,
    )

Reach-decreases :
    {opts : Options} {capacity : ℕ} {s t : Run} {k : ℕ}
    → Reach opts capacity s k t
    → k + moves_left t ≤ moves_left s
Reach-decreases here = omega arith
Reach-decreases (next r m) = omega (arith, Reach-decreases r, Step-decreases m)

sum_by-waiting : (n : ℕ) → sum_by worker_left (replicate n waiting) ≡ n
sum_by-waiting zero = refl
sum_by-waiting (suc n) = omega (arith, sum_by-waiting n)

-- A run makes at most nine moves for each entry of the work, one for each worker, and two more.
pub run-ends :
    (opts : Options) (domains : ℕ) (out : Mmap) (s : Run)
    → start opts domains out ≡ some s
    → {k : ℕ} {t : Run} → Reach opts (capacity_of opts) s k t
    → k ≤ 9 * length (work_of opts domains) + workers_of opts + 2
run-ends opts domains out s started r = omega (
  arith,
  Reach-decreases r,
  ap moves_left (start-cases opts domains out s started),
  sum_by-waiting (workers_of opts),
)
