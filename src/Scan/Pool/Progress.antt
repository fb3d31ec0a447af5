-- ===== src/Scan/Pool/Progress.antt =====
-- internal/scan/scan.go: a run never gets stuck, and what it has done when it is over.
use www_scanner.Prelude.{
  ℕ, ◌+◌, ◌<◌, ◌≡◌, ◌⊎◌, inl, inr, refl, sym, ap, ◌∙◌, true, false, List, [], ◌∷◌, ◌++◌, some,
  length, Bool-cases, arith,
}
use www_scanner.Record.{Record, zero_record}
use www_scanner.Record.Status
use www_scanner.Sink.Defs.{Mmap}
use www_scanner.Scan.Pool.{
  IsProbed, Options, Feeder, feeding, offering, leaving, closed_after, Worker, waiting, took,
  probing, probed, stored, ended, gone, Shared, Run, FeedMove, skips, offers, sends, runs_out,
  closes, WorkMove, receives, begins, probes, stores, ends, observes, leaves, Step, feed, work,
  start, should_skip, workers_of, capacity_of, work_of,
}
use www_scanner.Scan.Pool.Accounts.{
  sum_by, holds, is_busy, has_left, remaining, has_closed, IsAccounted, Reach, run-IsAccounted,
}

-- a record that a probe can return
abbrev aborted_record : Record
aborted_record = record zero_record { status = Status.aborted }

aborted_record-IsProbed : IsProbed aborted_record
aborted_record-IsProbed = record { fits = omega arith; attempted = λ e. absurd (omega arith) }

abbrev pub CanStep : Options → ℕ → Run → Type 0
CanStep opts capacity s = (t : Run) × Step opts capacity s t

-- somewhere in the pool
abbrev At : (Worker → Type 0) → List Worker → Type 0
At p pool =
    (before : List Worker) × (w : Worker) × (after : List Worker) × (pool ≡ before ++ (w ∷ after))
    × p w

-- a worker that can move whatever the channel holds
abbrev IsMoving : Worker → Type 0
IsMoving w = (s : Shared) → (t : Shared) × (v : Worker) × WorkMove s w t v

At-later : (p : Worker → Type 0) (w : Worker) (ws : List Worker) → At p ws → At p (w ∷ ws)
At-later p w ws (before, v, after, e, h) = (w ∷ before, v, after, ap (λ l. w ∷ l) e, h)

-- Some worker can move by itself, or some worker waits, or all have left.
find-worker :
    (ws : List Worker)
    → At IsMoving ws
      ⊎ At (λ w. w ≡ waiting) ws
      ⊎ ((sum_by has_left ws ≡ length ws) × (sum_by holds ws ≡ 0) × (sum_by is_busy ws ≡ 0))
find-worker [] = inr (inr (refl, refl, refl))
find-worker (waiting ∷ ws) = inr (inl ([], waiting, ws, refl, refl))
find-worker (took i ∷ ws) = inl ([], took i, ws, refl, λ s. (_, _, begins))
find-worker (probing i ∷ ws) =
    inl ([], probing i, ws, refl, λ s. (_, _, probes aborted_record aborted_record-IsProbed))
find-worker (probed i r ∷ ws) = inl ([], probed i r, ws, refl, λ s. (_, _, stores))
find-worker (stored i r ∷ ws) = inl ([], stored i r, ws, refl, λ s. (_, _, ends))
find-worker (ended i r ∷ ws) = inl ([], ended i r, ws, refl, λ s. (_, _, observes 0 (omega arith)))
find-worker (gone ∷ ws) = elim (find-worker ws) [
  | inl moving ↦ inl (At-later IsMoving gone ws moving)
  | inr (inl idle) ↦ inr (inl (At-later (λ w. w ≡ waiting) gone ws idle))
  | inr (inr (l, h, b)) ↦ inr (inr (omega (arith, l), omega (arith, h), omega (arith, b)))
]

feeder-moves :
    (opts : Options) (capacity : ℕ) (s : Shared) (f : Feeder)
    → has_closed f ≡ false
    → length s.buffer < capacity
    → (t : Shared) × (g : Feeder) × FeedMove opts capacity s f t g
feeder-moves opts capacity s (feeding []) c h = (_, _, runs_out)
feeder-moves opts capacity s (feeding (idx ∷ rest)) c h =
    elim (Bool-cases (should_skip opts s.out idx)) [
      | inl yes_skip ↦ (_, _, skips yes_skip)
      | inr no_skip ↦ (_, _, offers no_skip)
    ]
feeder-moves opts capacity s (offering idx rest) c h = (_, _, sends h)
feeder-moves opts capacity s (leaving rest) c h = (_, _, closes)
feeder-moves opts capacity s (closed_after rest) c h = absurd cc

List-cases : (xs : List ℕ) → (xs ≡ []) ⊎ ((x : ℕ) × (rest : List ℕ) × (xs ≡ x ∷ rest))
List-cases [] = inl refl
List-cases (x ∷ rest) = inr (x, rest, refl)

-- Every worker has left, the channel is closed and empty, no probe is under way, and every entry was skipped, probed
-- and counted, or not handed out.
pub record IsOver (workers entries : ℕ) (s : Run) : Type 0 where
  pub all_left : sum_by has_left s.pool ≡ workers
  pub nothing_queued : s.shared.buffer ≡ []
  pub channel_closed : s.shared.closed ≡ true
  pub nothing_running : s.shared.col.in_flight ≡ 0
  pub all_covered : s.shared.col.skipped + s.shared.col.completed + remaining s.feeder ≡ entries

module _ (opts : Options) (workers capacity entries : ℕ) (some_workers : 0 < workers)
    (some_room : 0 < capacity) where
  waiting-moves :
      (s : Run) (before after : List Worker)
      → s.pool ≡ before ++ (waiting ∷ after)
      → IsAccounted workers capacity entries s
      → CanStep opts capacity s
  waiting-moves s before after e a = elim (List-cases s.shared.buffer) [
    | inr (idx, rest, full) ↦ (_, work before after e (receives full))
    | inl empty ↦ elim (Bool-cases s.shared.closed) [
      | inl closed ↦ (_, work before after e (leaves empty closed))
      | inr open_channel ↦
          let (t, g, m) =
            feeder-moves opts capacity s.shared s.feeder (sym a.closing ∙ open_channel)
              (omega (arith, ap length empty)) in
          (_, feed m)
    ]
  ]

  accounted-progress :
      (s : Run)
      → IsAccounted workers capacity entries s
      → CanStep opts capacity s ⊎ IsOver workers entries s
  accounted-progress s a = elim (find-worker s.pool) [
    | inl (before, w, after, e, moves) ↦
        let (t, v, m) = moves s.shared in inl (_, work before after e m)
    | inr (inl (before, w, after, e, idle)) ↦
        inl (waiting-moves s before after (e ∙ ap (λ x. before ++ (x ∷ after)) idle) a)
    | inr (inr (l, h, b)) ↦ inr (over l h b a.leaving_last)
  ]
    where
      over :
          sum_by has_left s.pool ≡ length s.pool
          → sum_by holds s.pool ≡ 0
          → sum_by is_busy s.pool ≡ 0
          → (sum_by has_left s.pool ≡ 0) ⊎ ((s.shared.buffer ≡ []) × (s.shared.closed ≡ true))
          → IsOver workers entries s
      over l h b (inl none_left) = absurd (omega (arith, l, none_left, a.all_workers))
      over l h b (inr (empty, closed)) = record {
        all_left = omega (arith, l, a.all_workers);
        nothing_queued = empty;
        channel_closed = closed;
        nothing_running = omega (arith, b, a.gauge);
        all_covered = omega (arith, h, a.all_entries, ap length empty);
      }

-- A run that has started never gets stuck: some goroutine can move, or the run is over, with no probe under way and every entry of the
-- work skipped, probed and counted, or not handed out.
pub run-progress :
    (opts : Options) (domains : ℕ) (out : Mmap) (s : Run)
    → start opts domains out ≡ some s
    → {k : ℕ} {t : Run} → Reach opts (capacity_of opts) s k t
    → CanStep opts (capacity_of opts) t ⊎ IsOver (workers_of opts) (length (work_of opts domains)) t
run-progress opts domains out s started r =
    accounted-progress opts (workers_of opts) (capacity_of opts) (length (work_of opts domains))
      (ground arith) (ground arith) _ (run-IsAccounted opts domains out s started r)
