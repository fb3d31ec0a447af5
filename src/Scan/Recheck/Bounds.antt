-- ===== src/Scan/Recheck/Bounds.antt =====
-- internal/scan/recheck.go: the indices of a recheck are positions of matching records, ascending.
use www_scanner.Prelude.{
  ℕ, zero, suc, ◌+◌, ◌%◌, ◌≤◌, ◌<◌, ◌≡◌, true, false, Bool-cases, inl, inr, List, ◌∷◌, All, length,
  count_from, ltb, ◌==◌, if◌then◌else◌, arith, Text,
}
use www_scanner.Record.{Record}
use www_scanner.Record.Status
use www_scanner.Sink.Results.{Results}
use www_scanner.Scan.Sample.Bounds.{IsAscending, All-mono}
use www_scanner.Scan.Recheck.{matches, select, recheck_indices}

-- What holds of indices selected from those between `lo` and `hi`.
pub record IsSelection (prev : Results) (f : Text) (lo hi : ℕ) (is : List ℕ) : Type 0 where
  pub above : All (λ i. lo ≤ i) is
  pub below : All (λ i. i < hi) is
  pub ascending : IsAscending is
  pub few : lo + length is ≤ hi
  pub matching : All (λ i. matches f (prev.get i) ≡ true) is

module _ (prev : Results) (f : Text) where
  skip-IsSelection :
      (lo hi : ℕ) (is : List ℕ) → IsSelection prev f (suc lo) hi is → IsSelection prev f lo hi is
  skip-IsSelection lo hi is s = record {
    above = All-mono is (λ i h. omega arith) s.above;
    below = s.below;
    ascending = s.ascending;
    few = omega (arith, s.few);
    matching = s.matching;
  }

  take-IsSelection :
      (lo hi : ℕ) (is : List ℕ)
      → lo < hi
      → matches f (prev.get lo) ≡ true
      → IsSelection prev f (suc lo) hi is
      → IsSelection prev f lo hi (lo ∷ is)
  take-IsSelection lo hi is h m s = record {
    above = (omega arith, All-mono is (λ i h. omega arith) s.above);
    below = (h, s.below);
    ascending = (All-mono is (λ i h. omega arith) s.above, s.ascending);
    few = omega (arith, s.few);
    matching = (m, s.matching);
  }

  select-IsSelection :
      (stride seen lo n hi : ℕ)
      → lo + n ≤ hi
      → IsSelection prev f lo hi (select prev f stride seen (count_from lo n))
  unfolding select
  select-IsSelection stride seen lo zero hi h = record {
    above = tt;
    below = tt;
    ascending = tt;
    few = omega arith;
    matching = tt;
  }
  select-IsSelection stride seen lo (suc n) hi h = elim (Bool-cases (matches f (prev.get lo))) [
    | inl hit ↦
        let rest = select-IsSelection stride (seen + 1) (suc lo) n hi (omega arith) in
        elim (Bool-cases (seen % stride == 0)) [
          | inl taken ↦ rw (hit, taken, select) (take-IsSelection lo hi _ (omega arith) hit rest)
          | inr passed ↦ rw (hit, passed, select) (skip-IsSelection lo hi _ rest)
        ]
    | inr miss ↦
        rw (miss, select)
          (skip-IsSelection lo hi _ (select-IsSelection stride seen (suc lo) n hi (omega arith)))
  ]

  -- The indices of a recheck are ascending positions of the previous results, below their length, and each of them
  -- holds a record that matches the filter.
  pub recheck_indices-IsSelection :
      (stride : ℕ) → IsSelection prev f 0 prev.len (recheck_indices prev f stride)
  unfolding recheck_indices
  recheck_indices-IsSelection stride =
      select-IsSelection (if ltb stride 1 then 1 else stride) 0 0 prev.len prev.len (omega arith)

pub matches-attempted :
    (f : Text) (r : Record) → matches f r ≡ true → (r.status == Status.unattempted) ≡ false
unfolding matches
matches-attempted f r h = ground arith
