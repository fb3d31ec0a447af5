-- ===== src/Scan/Pool/Written.antt =====
-- internal/scan/scan.go: a record that a worker has written stays in the sink.
use www_scanner.Prelude.{
  All, ℕ, ◌+◌, ◌≤◌, ◌<◌, ◌≡◌, inl, inr, refl, sym, ap, ◌∙◌, subst, List, ◌∷◌, ◌++◌, arith, dec_lt,
}
use www_scanner.Record.{Record}
use www_scanner.Sink.Defs.{Mmap, get}
use www_scanner.Sink.Laws.{IsOpen, write_lem, stored-IsOpen, get-stored, get-stored_ne}
use www_scanner.Sink.Laws as Laws
use www_scanner.Scan.Pool.{
  Options, Feeder, Worker, probed, Shared, store, Run, FeedMove, WorkMove, Step, feed, work,
}
use www_scanner.Scan.Pool.Accounts.{sum_by, sum_by-moved, sum_by-middle, Reach, here, next}
use www_scanner.Scan.Pool.Held.{Held, work-Held, All-moved}
use www_scanner.Scan.Pool.Places.{
  unwritten, uncounted, unsettled, feed-unsettled, feed-out, work-unsettled, work-out,
}

module _ (n : ℕ) where
  -- The sink is open with its `n` records, positions beyond are not on the way to it, and each position is in one place at
  -- most until its probe is counted.
  pub record IsTidy (s : Run) : Type 0 where
    pub live : IsOpen s.shared.out
    pub sized : s.shared.out.n ≡ n
    pub within : (j : ℕ) → n ≤ j → unsettled j s ≡ 0
    pub single : (j : ℕ) → unsettled j s + sum_by (uncounted j) s.pool ≤ 1
    pub held : All Held s.pool

  -- `store` at a position of the sink
  pub store_lem :
      (out : Mmap) (idx : ℕ) (r : Record)
      → IsOpen out
      → idx < out.n
      → store out idx r ≡ Laws.stored out idx r
  unfolding store
  store_lem out idx r live below = rw (write_lem out live idx below r, store) refl

  -- A worker that has a record has a position of the sink, which is not settled.
  pub probed-within :
      (s : Shared) (f : Feeder) (before after : List Worker) (idx : ℕ) (r : Record)
      → IsTidy (record { shared = s; feeder = f; pool = before ++ (probed idx r ∷ after) })
      → (idx < n)
        × (1
            ≤ unsettled idx
                (record { shared = s; feeder = f; pool = before ++ (probed idx r ∷ after) }))
  probed-within s f before after idx r tidy =
      let held = sum_by-middle (unwritten idx) before after (probed idx r) in
      let own : unwritten idx (probed idx r) ≡ 1 = ground arith in
      elim (dec_lt idx n) [
        | yes below ↦ (below, omega (arith, held, own))
        | no beyond ↦ absurd (omega (arith, held, own, tidy.within idx (omega arith)))
      ]

  -- A move of the pool leaves the sink open, and what it holds at settled positions as it is.
  work-out-kept :
      {s t : Shared} {w v : Worker} (before after : List Worker) (f : Feeder)
      → IsTidy (record { shared = s; feeder = f; pool = before ++ (w ∷ after) })
      → WorkMove s w t v
      → IsOpen t.out
        × (t.out.n ≡ n)
        × ((j : ℕ)
            → unsettled j (record { shared = s; feeder = f; pool = before ++ (w ∷ after) }) ≡ 0
            → get t.out j ≡ get s.out j)
  work-out-kept {s} {t} {w} {v} before after f tidy mv = elim (work-out mv) [
    | inl same ↦ rw same (tidy.live, tidy.sized, λ j h. refl)
    | inr (idx, rec, at_w, wrote) ↦
        let tidy' =
          subst (λ w. IsTidy (record { shared = s; feeder = f; pool = before ++ (w ∷ after) })) at_w
            tidy in
        let (below, busy) = probed-within s f before after idx rec tidy' in
        let inside : idx < s.out.n = omega (arith, below, tidy.sized) in
        rw (wrote, store_lem s.out idx rec tidy.live inside)
          (
            stored-IsOpen s.out tidy.live idx inside rec,
            tidy.sized,
            λ j h. get-stored_ne s.out tidy.live idx inside rec j (λ same.
                let at : Worker → ℕ → Type 0 = λ w i.
                  unsettled i (record { shared = s; feeder = f; pool = before ++ (w ∷ after) })
                  ≡ 0 in
                let settled : at (probed idx rec) idx =
                  subst (λ w. at w idx) at_w (subst (at w) (sym same) h) in
                absurd (omega (arith, busy, settled))),
          )
  ]

  -- what a move keeps: the sink is tidy, and holds what it held at settled positions, which stay settled
  pub record Keeps (s t : Run) : Type 0 where
    pub tidy : IsTidy t
    pub kept :
        (j : ℕ)
        → unsettled j s ≡ 0
        → (unsettled j t ≡ 0) × (get t.shared.out j ≡ get s.shared.out j)

  feed-Keeps :
      {opts : Options} {capacity : ℕ} {s t : Shared} {f g : Feeder} (pool : List Worker)
      → IsTidy (record { shared = s; feeder = f; pool = pool })
      → FeedMove opts capacity s f t g
      → Keeps
          (record { shared = s; feeder = f; pool = pool })
          (record { shared = t; feeder = g; pool = pool })
  feed-Keeps pool tidy mv =
      let same = feed-out mv in
      record {
        tidy = record {
          live = rw same tidy.live;
          sized = rw same tidy.sized;
          within = λ j h. omega (arith, feed-unsettled mv j, tidy.within j h);
          single = λ j. omega (arith, feed-unsettled mv j, tidy.single j);
          held = tidy.held;
        };
        kept = λ j h. (omega (arith, feed-unsettled mv j, h), ap (λ out. get out j) same);
      }

  work-Keeps :
      {s t : Shared} {w v : Worker} (before after : List Worker) (f : Feeder)
      → IsTidy (record { shared = s; feeder = f; pool = before ++ (w ∷ after) })
      → WorkMove s w t v
      → Keeps
          (record { shared = s; feeder = f; pool = before ++ (w ∷ after) })
          (record { shared = t; feeder = f; pool = before ++ (v ∷ after) })
  work-Keeps {w = w} {v = v} before after f tidy mv =
      let (live, sized, kept) = work-out-kept before after f tidy mv in
      record {
        tidy = record {
          live = live;
          sized = sized;
          within = λ j h. omega (
            arith,
            work-unsettled mv j,
            sum_by-moved (unwritten j) before after w v,
            tidy.within j h,
          );
          single = λ j. omega (
            arith,
            work-unsettled mv j,
            sum_by-moved (unwritten j) before after w v,
            sum_by-moved (uncounted j) before after w v,
            tidy.single j,
          );
          held = All-moved before after w v (work-Held mv) tidy.held;
        };
        kept = λ j h. (
          omega (arith, work-unsettled mv j, sum_by-moved (unwritten j) before after w v, h),
          kept j h,
        );
      }

  pub Step-Keeps :
      {opts : Options} {capacity : ℕ} {s t : Run} → Step opts capacity s t → IsTidy s → Keeps s t
  Step-Keeps {s = s} (feed mv) tidy = feed-Keeps s.pool tidy mv
  Step-Keeps {s = s} (work before after {w} {w'} {sh} e mv) tidy =
      let at : List Worker → Run = λ pool. record s { pool = pool } in
      let goal : List Worker → Type 0 =
        λ pool. Keeps (at pool) (record s { shared = sh; pool = before ++ (w' ∷ after) }) in
      subst goal (sym e)
        (work-Keeps before after s.feeder (subst (λ pool. IsTidy (at pool)) e tidy) mv)

  pub Reach-Keeps :
      {opts : Options} {capacity : ℕ} {s : Run} {k : ℕ} {t : Run}
      → Reach opts capacity s k t
      → IsTidy s
      → Keeps s t
  Reach-Keeps here tidy = record { tidy = tidy; kept = λ j h. (h, refl) }
  Reach-Keeps (next run step) tidy =
      let first = Reach-Keeps run tidy in
      let last = Step-Keeps step first.tidy in
      record {
        tidy = last.tidy;
        kept = λ j h.
            let (settled, same) = first.kept j h in
            let (settled', same') = last.kept j settled in (settled', same' ∙ same);
      }
