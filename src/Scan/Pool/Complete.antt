-- ===== src/Scan/Pool/Complete.antt =====
-- internal/scan/scan.go: a run that is over, and that nothing has cut short, has attempted all of its work.
use www_scanner.Prelude.{
  ℕ, ◌+◌, ◌≤◌, ◌<◌, ◌≡◌, ◌≢◌, ◌⊎◌, inl, inr, sym, ap, subst, true, List, [], ◌∷◌, ◌++◌, ◌==◌,
  if◌then◌else◌, ok, Bool-cases, arith,
}
use www_scanner.Record.{Record}
use www_scanner.Record.Status
use www_scanner.Metrics.Collector.{begin_probe, end_probe, observe, skip}
use www_scanner.Sink.Defs.{Mmap, get}
use www_scanner.Sink.Results.{of_mmap}
use www_scanner.Sink.Laws.{IsOpen, get-stored}
use www_scanner.Sink.Laws as Laws
use www_scanner.Scan.Pool.{
  IsProbed, Options, Feeder, feeding, offering, leaving, closed_after, Worker, probed, Shared,
  should_skip, store, Run, FeedMove, skips, offers, time_up, sends, interrupted, runs_out, closes,
  WorkMove, receives, begins, probes, stores, ends, observes, leaves, Step, feed, work,
}
use www_scanner.Scan.Pool.Accounts.{sum_by, sum_by-moved, Reach, here, next}
use www_scanner.Scan.Pool.Held.{All-Held}
use www_scanner.Scan.Pool.Places.{feed-out, work-out, occurs, occurs-append, unwritten}
use www_scanner.Scan.Pool.Written.{IsTidy, Reach-Keeps, store_lem, probed-within}

-- the sink holds a record that says that it was attempted
abbrev pub IsAttempted : ℕ → Mmap → Type 0
IsAttempted j out = ((of_mmap out).get j).status ≢ Status.unattempted

-- with a feeder, also one that has left its loop
abbrev pub unfed : ℕ → Feeder → ℕ
unfed j (feeding rest) = occurs j rest
unfed j (offering i rest) = (if i == j then 1 else 0) + occurs j rest
unfed j (leaving rest) = occurs j rest
unfed j (closed_after rest) = occurs j rest

-- in how many places a position is before it is written or left out
abbrev pub at_large : ℕ → Run → ℕ
at_large j s = unfed j s.feeder + occurs j s.shared.buffer + sum_by (unwritten j) s.pool

-- A move of the feeder lets go of a position only to skip it.
feed-large :
    {opts : Options} {capacity : ℕ} {s t : Shared} {f g : Feeder}
    → FeedMove opts capacity s f t g
    → (j : ℕ)
    → (unfed j f + occurs j s.buffer ≤ unfed j g + occurs j t.buffer)
      ⊎ (should_skip opts s.out j ≡ true)
unfolding skip
feed-large {opts} {s = s} (skips {idx} e) j = elim (Bool-cases (idx == j)) [
  | inl same ↦ inr (ground (arith, same, e))
  | inr other ↦ inl (ground (arith, other))
]
feed-large (offers e) j = inl (omega arith)
feed-large (time_up e t) j = inl (omega arith)
feed-large {s = s} (sends {idx} h) j = inl (omega (arith, occurs-append j s.buffer (idx ∷ [])))
feed-large interrupted j = inl (omega arith)
feed-large runs_out j = inl (omega arith)
feed-large closes j = inl (omega arith)

should_skip-IsAttempted :
    (opts : Options) (out : Mmap) (j : ℕ) → should_skip opts out j ≡ true → IsAttempted j out
unfolding should_skip
should_skip-IsAttempted opts out j h = ground (arith, h)

-- A move of a worker lets go of a position only to write its record.
work-large :
    {s t : Shared} {w v : Worker}
    → WorkMove s w t v
    → (j : ℕ)
    → (occurs j s.buffer + unwritten j w ≤ occurs j t.buffer + unwritten j v)
      ⊎ ((rec : Record) × (w ≡ probed j rec) × (t.out ≡ store s.out j rec))
unfolding begin_probe end_probe observe
work-large (receives {idx} {rest} e) j = inl (omega (arith, ap (occurs j) e))
work-large begins j = inl (omega arith)
work-large (probes r ok_rec) j = inl (omega arith)
work-large {s} (stores {idx} {rec}) j = elim (Bool-cases (idx == j)) [
  | inl same ↦
      let e : idx ≡ j = ground (arith, same) in
      inr (rec, ap (λ i. probed i rec) e, ap (λ i. store s.out i rec) e)
  | inr other ↦ inl (ground (arith, other))
]
work-large ends j = inl (omega arith)
work-large (observes us h) j = inl (omega arith)
work-large (leaves e l) j = inl (omega arith)

module _ (out : Mmap) (idx : ℕ) (rec : Record) (live : IsOpen out) (below : idx < out.n)
    (probe : IsProbed rec) where
  get-after : (j : ℕ) → get (Laws.stored out idx rec) j ≡ (if idx == j then ok rec else get out j)
  get-after j = get-stored out live idx below rec probe.fits j

  -- Writing the record of a probe makes its position attempted, and leaves no attempted position unattempted.
  stored-IsAttempted_self : IsAttempted idx (Laws.stored out idx rec)
  unfolding of_mmap
  stored-IsAttempted_self = ground (arith, get-after idx, probe.attempted)

  stored-IsAttempted : (j : ℕ) → IsAttempted j out → IsAttempted j (Laws.stored out idx rec)
  unfolding of_mmap
  stored-IsAttempted j h = elim (Bool-cases (idx == j)) [
    | inl same ↦ ground (arith, get-after j, probe.attempted, same)
    | inr other ↦ ground (arith, get-after j, other, h)
  ]

-- not yet written and not skipped, or attempted
abbrev pub IsCovered : ℕ → Run → Type 0
IsCovered j s = (1 ≤ at_large j s) ⊎ IsAttempted j s.shared.out

module _ (n j : ℕ) where
  feed-IsCovered :
      {opts : Options} {capacity : ℕ} {s t : Shared} {f g : Feeder} (pool : List Worker)
      → FeedMove opts capacity s f t g
      → IsCovered j (record { shared = s; feeder = f; pool = pool })
      → IsCovered j (record { shared = t; feeder = g; pool = pool })
  feed-IsCovered {opts} {s = s} {t = t} pool mv covered =
      let same = feed-out mv in
      elim covered [
        | inr attempted ↦ inr (subst (IsAttempted j) (sym same) attempted)
        | inl large ↦ elim (feed-large mv j) [
          | inl le ↦ inl (omega arith)
          | inr skipped ↦
              inr (subst (IsAttempted j) (sym same) (should_skip-IsAttempted opts s.out j skipped))
        ]
      ]

  work-IsCovered :
      {s t : Shared} {w v : Worker} (before after : List Worker) (f : Feeder)
      → IsTidy n (record { shared = s; feeder = f; pool = before ++ (w ∷ after) })
      → WorkMove s w t v
      → IsCovered j (record { shared = s; feeder = f; pool = before ++ (w ∷ after) })
      → IsCovered j (record { shared = t; feeder = f; pool = before ++ (v ∷ after) })
  work-IsCovered {s} {t} {w} {v} before after f tidy mv covered =
      let at : Worker → Run =
        λ w. record { shared = s; feeder = f; pool = before ++ (w ∷ after) } in
      let writes : (idx : ℕ) (rec : Record) → w ≡ probed idx rec → IsProbed rec × (idx < s.out.n) =
        λ idx rec e.
          let tidy' = subst (λ w. IsTidy n (at w)) e tidy in
          (
            All-Held before after (probed idx rec) tidy'.held,
            omega (arith, (probed-within n s f before after idx rec tidy').0, tidy.sized),
          ) in
      elim covered [
        | inr attempted ↦ elim (work-out mv) [
          | inl same ↦ inr (subst (IsAttempted j) (sym same) attempted)
          | inr (idx, rec, e, wrote) ↦
              let (probe, below) = writes idx rec e in
              inr (
                rw (wrote, store_lem n s.out idx rec tidy.live below)
                  (stored-IsAttempted s.out idx rec tidy.live below probe j attempted))
        ]
        | inl large ↦ elim (work-large mv j) [
          | inl le ↦ inl (omega (arith, sum_by-moved (unwritten j) before after w v))
          | inr (rec, e, wrote) ↦
              let (probe, below) = writes j rec e in
              inr (
                rw (wrote, store_lem n s.out j rec tidy.live below)
                  (stored-IsAttempted_self s.out j rec tidy.live below probe))
        ]
      ]

  Step-IsCovered :
      {opts : Options} {capacity : ℕ} {s t : Run}
      → Step opts capacity s t
      → IsTidy n s
      → IsCovered j s
      → IsCovered j t
  Step-IsCovered {s = s} (feed mv) tidy covered = feed-IsCovered s.pool mv covered
  Step-IsCovered {s = s} (work before after {w} {w'} {sh} e mv) tidy covered =
      let at : List Worker → Run = λ pool. record s { pool = pool } in
      work-IsCovered before after s.feeder (subst (λ pool. IsTidy n (at pool)) e tidy) mv
        (subst (λ pool. IsCovered j (at pool)) e covered)

  pub Reach-IsCovered :
      {opts : Options} {capacity : ℕ} {s : Run} {k : ℕ} {t : Run}
      → Reach opts capacity s k t
      → IsTidy n s
      → IsCovered j s
      → IsCovered j t
  Reach-IsCovered here tidy covered = covered
  Reach-IsCovered (next run step) tidy covered =
      Step-IsCovered step (Reach-Keeps n run tidy).tidy (Reach-IsCovered run tidy covered)
