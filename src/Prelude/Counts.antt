-- ===== src/Prelude/Counts.antt =====
-- A Go map from keys to counts: `m[k]++`, the count of a key, and the sum of the counts.
use Prim.Native.Nat.{ℕ, suc, ◌+◌, ◌≤◌}
use www_scanner.Prelude.Lists.{All}
use mathlib.Core.Bool.{Bool, true}
use mathlib.Core.List.{List, [], ◌∷◌}
use mathlib.Core.Logic.{◌↔◌}
use mathlib.Core.Path.{◌≡◌, refl}
use native.Mathlib.Omega.{arith}
use www_scanner.Prelude.Tests.{◌==◌, ==_iff, if◌then◌else◌, leb, leb→le, if_cases}
use www_scanner.Prelude.Texts.{Text, eq_text, eq_text_iff}

-- equality of keys
pub record Key {ℓ} (K : Type ℓ) : Type ℓ where
  pub same : K → K → Bool
  pub same_iff : (a b : K) → (same a b ≡ true) ↔ (a ≡ b)

instance abbrev pub number_key : Key ℕ
number_key = record { same = ◌==◌; same_iff = ==_iff }

instance abbrev pub text_key : Key Text
text_key = record { same = eq_text; same_iff = eq_text_iff }

abbrev pub Counts {ℓ} : Type ℓ → Type ℓ
Counts K = List (K × ℕ)

module _ {ℓ} {K : Type ℓ} ⦃e : Key K⦄ where
  -- `m[k]++`
  unfoldable pub inc : K → Counts K → Counts K
  inc k [] = (k, 1) ∷ []
  inc k ((j, n) ∷ m) = if e.same j k then (j, suc n) ∷ m else (j, n) ∷ inc k m

  -- `m[k]`
  unfoldable pub count_of : K → Counts K → ℕ
  count_of k [] = 0
  count_of k ((j, n) ∷ m) = if e.same j k then n else count_of k m

module _ {ℓ} {K : Type ℓ} where
  unfoldable pub total : Counts K → ℕ
  total [] = 0
  total ((j, n) ∷ m) = n + total m

module _ {ℓ} {K : Type ℓ} ⦃e : Key K⦄ where
  pub total-inc : (k : K) (m : Counts K) → total (inc k m) ≡ total m + 1
  unfolding total inc
  total-inc k [] = refl
  total-inc k ((j, n) ∷ m) = ground (arith, total-inc k m)

  pub count_of-inc :
      (k j : K) (m : Counts K) → count_of j (inc k m) ≡ count_of j m + (if e.same k j then 1 else 0)
  unfolding count_of inc
  count_of-inc k j [] = ground arith
  count_of-inc k j ((i, n) ∷ m) =
      ground (arith, e.same_iff i k, e.same_iff i j, e.same_iff k j, count_of-inc k j m)

module _ {ℓ} {K : Type ℓ} where
  unfoldable pub insert_count : K × ℕ → Counts K → Counts K
  insert_count p [] = p ∷ []
  insert_count p (q ∷ qs) =
      let rest = insert_count p qs in if leb (q.1) (p.1) then p ∷ q ∷ qs else q ∷ rest

  -- `sort.Slice` by the count, the largest first; Go leaves the order of equal counts open
  unfoldable pub sort_counts : Counts K → Counts K
  unfolding insert_count
  sort_counts [] = []
  sort_counts (p ∷ ps) = insert_count p (sort_counts ps)

  -- each count is at least as large as all behind it
  abbrev pub IsDescending : Counts K → Type 0
  IsDescending [] = Unit
  IsDescending (p ∷ ps) = All (λ q. q.1 ≤ p.1) ps × IsDescending ps

  total-insert_count : (p : K × ℕ) (m : Counts K) → total (insert_count p m) ≡ p.1 + total m
  unfolding total insert_count
  total-insert_count p [] = refl
  total-insert_count (k, n) ((j, l) ∷ m) = ground (arith, total-insert_count (k, n) m)

  pub total-sort_counts : (m : Counts K) → total (sort_counts m) ≡ total m
  unfolding total sort_counts
  total-sort_counts [] = refl
  total-sort_counts ((k, n) ∷ m) =
      omega (arith, total-insert_count (k, n) (sort_counts m), total-sort_counts m)

  insert_count-below :
      (b : ℕ) (p : K × ℕ) (m : Counts K)
      → p.1 ≤ b
      → All (λ q. q.1 ≤ b) m
      → All (λ q. q.1 ≤ b) (insert_count p m)
  unfolding insert_count
  insert_count-below b p [] h a = (h, tt)
  insert_count-below b p (q ∷ m) h (hq, a) =
      if_cases (All (λ r. r.1 ≤ b)) (leb (q.1) (p.1)) _ _ (λ _. (h, (hq, a)))
        (λ _. (hq, insert_count-below b p m h a))

  below_mono : (a b : ℕ) (m : Counts K) → a ≤ b → All (λ q. q.1 ≤ a) m → All (λ q. q.1 ≤ b) m
  below_mono a b [] h x = tt
  below_mono a b (q ∷ m) h (hq, x) = (omega arith, below_mono a b m h x)

  insert_count-IsDescending :
      (p : K × ℕ) (m : Counts K) → IsDescending m → IsDescending (insert_count p m)
  unfolding insert_count
  insert_count-IsDescending p [] d = (tt, tt)
  insert_count-IsDescending p (q ∷ m) (below, d) =
      if_cases IsDescending (leb (q.1) (p.1)) _ _
        (λ e. (
          (leb→le (q.1) (p.1) e, below_mono (q.1) (p.1) m (leb→le (q.1) (p.1) e) below),
          (below, d),
        ))
        (λ e.
          (insert_count-below (q.1) p m (ground (arith, e)) below, insert_count-IsDescending p m d))

  pub sort_counts-IsDescending : (m : Counts K) → IsDescending (sort_counts m)
  unfolding sort_counts
  sort_counts-IsDescending [] = tt
  sort_counts-IsDescending (p ∷ m) =
      insert_count-IsDescending p (sort_counts m) (sort_counts-IsDescending m)
