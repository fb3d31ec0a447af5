-- ===== src/Scan/Sample/Bounds.antt =====
-- internal/scan/sample.go: the sample has the size asked for, and its positions are distinct, in
-- range and ascending.
use www_scanner.Prelude.{
  ℕ, zero, suc, ◌+◌, ◌-◌, ◌≤◌, ◌<◌, ◌≡◌, refl, ◌≢◌, false, Bool-cases, inl, inr, List, [], ◌∷◌, All,
  length, count_from, length-count_from, leb, min, arith,
}
use www_scanner.Scan.Sample.{taken, insert_sorted, sort_ints, pick, floyd, sample_indices}

-- each element is smaller than all behind it
abbrev pub IsAscending : List ℕ → Type 0
IsAscending [] = Unit
IsAscending (x ∷ xs) = All (λ y. x < y) xs × IsAscending xs

-- no element stands twice
abbrev IsDistinct : List ℕ → Type 0
IsDistinct [] = Unit
IsDistinct (x ∷ xs) = All (λ y. y ≢ x) xs × IsDistinct xs

pub All-mono : {P Q : ℕ → Type 0} (xs : List ℕ) → ((x : ℕ) → P x → Q x) → All P xs → All Q xs
All-mono [] h a = tt
All-mono (x ∷ xs) h (p, a) = (h x p, All-mono xs h a)

taken-false : (t : ℕ) (xs : List ℕ) → taken t xs ≡ false → All (λ y. y ≢ t) xs
unfolding taken
taken-false t [] h = tt
taken-false t (x ∷ xs) h = (ground arith, taken-false t xs (ground arith))

insert_sorted-All :
    (P : ℕ → Type 0) (x : ℕ) (xs : List ℕ) → P x → All P xs → All P (insert_sorted x xs)
unfolding insert_sorted
insert_sorted-All P x [] p a = (p, tt)
insert_sorted-All P x (y ∷ ys) p (q, a) = elim (Bool-cases (leb x y)) [
  | inl le ↦ rw le (p, (q, a))
  | inr gt ↦ rw gt (q, insert_sorted-All P x ys p a)
]

sort_ints-All : (P : ℕ → Type 0) (xs : List ℕ) → All P xs → All P (sort_ints xs)
unfolding sort_ints
sort_ints-All P [] a = tt
sort_ints-All P (x ∷ xs) (p, a) = insert_sorted-All P x (sort_ints xs) p (sort_ints-All P xs a)

insert_sorted-IsAscending :
    (x : ℕ) (xs : List ℕ) → All (λ y. y ≢ x) xs → IsAscending xs → IsAscending (insert_sorted x xs)
unfolding insert_sorted
insert_sorted-IsAscending x [] l a = (tt, tt)
insert_sorted-IsAscending x (y ∷ ys) (ne, l) (lo, a) = elim (Bool-cases (leb x y)) [
  | inl le ↦
      let lt : x < y = ground arith in rw le ((lt, All-mono ys (λ z h. omega arith) lo), (lo, a))
  | inr gt ↦ rw gt (insert_sorted-All _ x ys (ground arith) lo, insert_sorted-IsAscending x ys l a)
]

sort_ints-IsAscending : (xs : List ℕ) → IsDistinct xs → IsAscending (sort_ints xs)
unfolding sort_ints
sort_ints-IsAscending [] d = tt
sort_ints-IsAscending (x ∷ xs) (l, d) =
    insert_sorted-IsAscending x (sort_ints xs) (sort_ints-All _ xs l) (sort_ints-IsAscending xs d)

length-insert_sorted : (x : ℕ) (xs : List ℕ) → length (insert_sorted x xs) ≡ suc (length xs)
unfolding insert_sorted
length-insert_sorted x [] = refl
length-insert_sorted x (y ∷ ys) = ground (arith, length-insert_sorted x ys)

length-sort_ints : (xs : List ℕ) → length (sort_ints xs) ≡ length xs
unfolding sort_ints
length-sort_ints [] = refl
length-sort_ints (x ∷ xs) =
    omega (arith, length-insert_sorted x (sort_ints xs), length-sort_ints xs)

pub count_from-IsAscending :
    (i n : ℕ) → All (λ y. i ≤ y) (count_from i n) × IsAscending (count_from i n)
count_from-IsAscending i zero = (tt, tt)
count_from-IsAscending i (suc n) =
    let (lo, a) = count_from-IsAscending (suc i) n in
    ((omega arith, All-mono (count_from (suc i) n) (λ y h. omega arith) lo), (lo, a))

pub count_from-below : (i n m : ℕ) → i + n ≤ m → All (λ y. y < m) (count_from i n)
count_from-below i zero m h = tt
count_from-below i (suc n) m h = (omega arith, count_from-below (suc i) n m (omega arith))

module _ (int_n : ℕ → ℕ → ℕ) (drawn : (j b : ℕ) → 0 < b → int_n j b < b) where
  -- what `chosen` is before the round of `j`
  record Chosen (j : ℕ) (xs : List ℕ) : Type 0 where
    below : All (λ y. y < j) xs
    distinct : IsDistinct xs

  pick-Chosen : (j : ℕ) (xs : List ℕ) → Chosen j xs → Chosen (j + 1) (pick int_n j xs ∷ xs)
  unfolding pick
  pick-Chosen j xs c = elim (Bool-cases (taken (int_n j (j + 1)) xs)) [
    | inl old ↦ rw old (record {
      below = (omega arith, All-mono xs (λ y h. omega arith) c.below);
      distinct = (All-mono xs (λ y h. omega arith) c.below, c.distinct);
    })
    | inr new ↦ rw new (record {
      below = (omega (arith, drawn j (j + 1)), All-mono xs (λ y h. omega arith) c.below);
      distinct = (taken-false _ xs new, c.distinct);
    })
  ]

  floyd-Chosen :
      (rounds j n : ℕ) (xs : List ℕ)
      → j + rounds ≡ n
      → Chosen j xs
      → Chosen n (floyd int_n rounds j xs) × (length (floyd int_n rounds j xs) ≡ rounds + length xs)
  unfolding floyd
  floyd-Chosen zero j n xs e c = (let e' : j ≡ n = omega arith in rw (← e') c, omega arith)
  floyd-Chosen (suc rounds) j n xs e c =
      let (c', l) =
        floyd-Chosen rounds (j + 1) n (pick int_n j xs ∷ xs) (omega arith) (pick-Chosen j xs c) in
      (c', omega arith)

  -- If every draw lies below its bound, a sample of k out of n positions has min k n positions; they
  -- are all below n, and strictly ascending, so no position is drawn twice.
  pub sample_indices_lem :
      (n k : ℕ)
      → (length (sample_indices int_n n k) ≡ min k n)
        × All (λ i. i < n) (sample_indices int_n n k)
        × IsAscending (sample_indices int_n n k)
  unfolding sample_indices
  sample_indices_lem n k = elim (Bool-cases (leb n k)) [
    | inl all ↦ rw all (
      ground (arith, length-count_from 0 n),
      count_from-below 0 n n (omega arith),
      (count_from-IsAscending 0 n).1,
    )
    | inr some ↦
        let (c, l) =
          floyd-Chosen k (n - k) n [] (ground arith) (record { below = tt; distinct = tt }) in
        rw some (
          ground (arith, length-sort_ints (floyd int_n k (n - k) [])),
          sort_ints-All _ _ c.below,
          sort_ints-IsAscending _ c.distinct,
        )
  ]
