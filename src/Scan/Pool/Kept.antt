-- ===== src/Scan/Pool/Kept.antt =====
-- internal/scan/scan.go: what the sink holds after a run, from its start.
use www_scanner.Prelude.{
  ℕ, ◌≤◌, ◌<◌, ◌≡◌, refl, ap, ◌∙◌, subst, List, [], ◌∷◌, ◌++◌, some, ok, All, arith,
}
use www_scanner.Record.{Record, IsEncodable}
use www_scanner.Sink.Defs.{Mmap, get}
use www_scanner.Sink.Laws.{IsOpen, get-stored}
use www_scanner.Scan.Sample.Bounds.{IsAscending}
use www_scanner.Scan.Pool.{
  Options, Worker, waiting, probed, stored, store, Run, stores, work, start, workers_of,
  capacity_of, work_of,
}
use www_scanner.Scan.Pool.Accounts.{sum_by-middle, sum_by-replicate, Reach, start-cases}
use www_scanner.Scan.Pool.Held.{All-Held, All-idle}
use www_scanner.Scan.Pool.Places.{occurs, unwritten, uncounted, unsettled}
use www_scanner.Scan.Pool.Written.{IsTidy, Step-Keeps, Reach-Keeps, store_lem, probed-within}

occurs-absent : (x : ℕ) (xs : List ℕ) → All (λ y. x < y) xs → (j : ℕ) → j ≤ x → occurs j xs ≡ 0
occurs-absent x [] above j h = refl
occurs-absent x (y ∷ ys) (lt, above) j h = ground (arith, occurs-absent x ys above j h)

IsAscending-occurs : (xs : List ℕ) → IsAscending xs → (j : ℕ) → occurs j xs ≤ 1
IsAscending-occurs [] a j = omega arith
IsAscending-occurs (x ∷ xs) (above, a) j =
    ground (arith, occurs-absent x xs above j, IsAscending-occurs xs a j)

occurs-beyond : (n : ℕ) (xs : List ℕ) → All (λ i. i < n) xs → (j : ℕ) → n ≤ j → occurs j xs ≡ 0
occurs-beyond n [] below j h = refl
occurs-beyond n (x ∷ xs) (lt, below) j h = ground (arith, occurs-beyond n xs below j h)

-- the run after the worker between `before` and `after` has written its record
abbrev pub after_write : Run → List Worker → ℕ → Record → List Worker → Run
after_write t before idx rec after = record t {
  shared = record (t.shared) { out = store t.shared.out idx rec };
  pool = before ++ (stored idx rec ∷ after);
}

module _ (opts : Options) (domains : ℕ) (out : Mmap) (s : Run)
    (started : start opts domains out ≡ some s) (live : IsOpen out)
    (below : All (λ i. i < out.n) (work_of opts domains))
    (ascending : IsAscending (work_of opts domains)) where
  pub start-IsTidy : IsTidy out.n s
  start-IsTidy =
      let idle = λ (weight : Worker → ℕ) (e : weight waiting ≡ 0).
        sum_by-replicate weight (workers_of opts) waiting e in
      rw (start-cases opts domains out s started) (record {
        live = live;
        sized = refl;
        within = λ j h.
            omega (
              arith,
              occurs-beyond out.n (work_of opts domains) below j h,
              idle (unwritten j) refl,
            );
        single = λ j. omega (
          arith,
          IsAscending-occurs (work_of opts domains) ascending j,
          idle (unwritten j) refl,
          idle (uncounted j) refl,
        );
        held = All-idle (workers_of opts);
      })

  -- A record that a worker writes is in the sink for the rest of the run, so also when its probe is counted and when the
  -- run is over, whatever the order of the moves: no other worker writes at its position. The work of the run is taken to
  -- be ascending positions of the open sink.
  pub written-kept :
      {k l : ℕ} {t u : Run} (before after : List Worker) (idx : ℕ) (rec : Record)
      → Reach opts (capacity_of opts) s k t
      → t.pool ≡ before ++ (probed idx rec ∷ after)
      → Reach opts (capacity_of opts) (after_write t before idx rec after) l u
      → get u.shared.out idx ≡ ok rec
  written-kept {t = t} before after idx rec run at rest =
      let tidy = (Reach-Keeps out.n run start-IsTidy).tidy in
      let tidy_at = subst (λ pool. IsTidy out.n (record t { pool = pool })) at tidy in
      let fits : IsEncodable rec = (All-Held before after (probed idx rec) tidy_at.held).fits in
      let (inside, busy) = probed-within out.n t.shared t.feeder before after idx rec tidy_at in
      let tidy' =
        (Step-Keeps out.n {opts = opts} {capacity = capacity_of opts} (work before after at stores)
          tidy).tidy in
      let one = tidy'.single idx in
      let own = sum_by-middle (uncounted idx) before after (stored idx rec) in
      let counted : uncounted idx (stored idx rec) ≡ 1 = ground arith in
      let fresh : unsettled idx (after_write t before idx rec after) ≡ 0 =
        omega (arith, one, own, counted) in
      let in_sink : idx < t.shared.out.n = omega (arith, inside, tidy.sized) in
      let kept = (Reach-Keeps out.n rest tidy').kept idx fresh in
      kept.1
      ∙ ap (λ o. get o idx) (store_lem out.n t.shared.out idx rec tidy.live in_sink)
      ∙ get-stored t.shared.out tidy.live idx in_sink rec fits idx
      ∙ ground arith

  -- What the sink holds at a position that is not in the work stays there during the whole run.
  pub unscanned-kept :
      {k : ℕ} {t : Run} (j : ℕ)
      → Reach opts (capacity_of opts) s k t
      → occurs j (work_of opts domains) ≡ 0
      → get t.shared.out j ≡ get out j
  unscanned-kept j run absent =
      let idle = sum_by-replicate (unwritten j) (workers_of opts) waiting refl in
      let cases = start-cases opts domains out s started in
      let settled : unsettled j s ≡ 0 = rw cases (omega (arith, absent, idle)) in
      ((Reach-Keeps out.n run start-IsTidy).kept j settled).1
      ∙ ap (λ (r : Run). get r.shared.out j) cases
