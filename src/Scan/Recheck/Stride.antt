-- ===== src/Scan/Recheck/Stride.antt =====
-- internal/scan/recheck.go: the loop of `RecheckIndices` takes every stride-th match.
use native.Mathlib.Nat.{mod-add-mod, mod-eq_of_lt, mod-lt, mod_self, mod-one, zero-mod}
use native.Mathlib.Numerals.{add-one}
use www_scanner.Prelude.{
  ℕ, zero, suc, ◌+◌, ◌*◌, ◌%◌, ◌≤◌, ◌<◌, ◌≡◌, refl, ap, sym, ◌∙◌, ◌⊎◌, inl, inr, false, List, [],
  ◌∷◌, keep, range, get_elem?, ltb, ◌==◌, if◌then◌else◌, arith, Text,
}
use www_scanner.Sink.Results.{Results}
use www_scanner.Scan.Recheck.{matches, select, recheck_indices}

-- the elements of a list at the positions that, counted from `seen`, are multiples of the stride
thin : ℕ → ℕ → List ℕ → List ℕ
thin s seen [] = []
thin s seen (m ∷ ms) = let rest = thin s (seen + 1) ms in if seen % s == 0 then m ∷ rest else rest

select-thin :
    (prev : Results) (f : Text) (s seen : ℕ) (is : List ℕ)
    → select prev f s seen is ≡ thin s seen (keep (λ i. matches f (prev.get i)) is)
unfolding select thin keep
select-thin prev f s seen [] = refl
select-thin prev f s seen (i ∷ is) =
    ground (arith, select-thin prev f s seen is, select-thin prev f s (seen + 1) is)

-- `off` more matches are passed over before the next one is taken
abbrev Offset : ℕ → ℕ → ℕ → Type 0
Offset s seen off = ((seen % s ≡ 0) × (off ≡ 0)) ⊎ ((0 < seen % s) × (off + seen % s ≡ s))

mod_next : (s seen : ℕ) → seen % suc s < s → (seen + 1) % suc s ≡ seen % suc s + 1
mod_next s seen h = sym (mod-add-mod seen (suc s) 1) ∙ mod-eq_of_lt (omega arith)

mod_wrap : (s seen : ℕ) → seen % suc s ≡ s → (seen + 1) % suc s ≡ 0
mod_wrap s seen h = sym (mod-add-mod seen (suc s) 1) ∙ ap (λ t. (t + 1) % suc s) h ∙ self
  where
    self : (s + 1) % suc s ≡ 0
    self = rw (add-one s) (mod_self (suc s))

Offset-suc : (s seen off : ℕ) → Offset (suc s) seen (suc off) → Offset (suc s) (seen + 1) off
Offset-suc s seen zero (inr (p, e)) = inl (mod_wrap s seen (omega arith), refl)
Offset-suc s seen (suc off) (inr (p, e)) =
    let n : (seen + 1) % suc s ≡ seen % suc s + 1 = mod_next s seen (omega arith) in
    inr (omega arith, omega arith)
Offset-suc s seen off (inl (p, e)) = absurd (omega arith)

Offset-zero : (s seen : ℕ) → seen % suc s ≡ 0 → Offset (suc s) (seen + 1) s
Offset-zero zero seen h = inl (mod_wrap zero seen h, refl)
Offset-zero (suc s) seen h =
    let n : (seen + 1) % suc (suc s) ≡ seen % suc (suc s) + 1 =
      mod_next (suc s) seen (omega arith) in
    inr (omega arith, omega arith)

get_elem?-thin :
    (s seen off k j : ℕ) (ms : List ℕ)
    → Offset (suc s) seen off
    → j ≡ off + k * suc s
    → get_elem? (thin (suc s) seen ms) k ≡ get_elem? ms j
unfolding thin
get_elem?-thin s seen off k j [] o e = refl
get_elem?-thin s seen off zero zero (m ∷ ms) (inl (p, z)) e = rw p
get_elem?-thin s seen off (suc k) zero (m ∷ ms) (inl (p, z)) e = absurd (omega arith)
get_elem?-thin s seen off zero (suc j) (m ∷ ms) (inl (p, z)) e = absurd (omega arith)
get_elem?-thin s seen off (suc k) (suc j) (m ∷ ms) (inl (p, z)) e =
    rw p (get_elem?-thin s (seen + 1) s k j ms (Offset-zero s seen p) (omega arith))
get_elem?-thin s seen zero k j (m ∷ ms) (inr (p, z)) e =
    absurd (omega (arith, mod-lt seen {m = suc s} (omega arith)))
get_elem?-thin s seen (suc off) k zero (m ∷ ms) (inr (p, z)) e = absurd (omega arith)
get_elem?-thin s seen (suc off) k (suc j) (m ∷ ms) (inr (p, z)) e =
    rw (ne)
      (get_elem?-thin s (seen + 1) off k j ms (Offset-suc s seen off (inr (p, z))) (omega arith))
  where
    ne : (seen % suc s == 0) ≡ false
    ne = ground arith

thin-one : (seen : ℕ) (ms : List ℕ) → thin 1 seen ms ≡ ms
unfolding thin
thin-one seen [] = refl
thin-one seen (m ∷ ms) = rw (mod-one seen) (ap (◌∷◌ m) (thin-one (seen + 1) ms))

module _ (prev : Results) (f : Text) where
  -- With stride 1, or a smaller one, the indices are exactly those of the matching records, ascending.
  pub recheck_every_match :
      recheck_indices prev f 1 ≡ keep (λ i. matches f (prev.get i)) (range prev.len)
  unfolding recheck_indices
  recheck_every_match = select-thin prev f 1 0 (range prev.len) ∙ thin-one 0 _

  -- With a stride of at least 1, the k-th index is the one that the full selection has at place
  -- k * stride; the two selections end together.
  pub get_elem?-recheck_indices :
      (stride k : ℕ)
      → 1 ≤ stride
      → get_elem? (recheck_indices prev f stride) k
        ≡ get_elem? (recheck_indices prev f 1) (k * stride)
  unfolding recheck_indices
  get_elem?-recheck_indices zero k h = absurd (omega arith)
  get_elem?-recheck_indices (suc s) k h =
      let steps : (if ltb (suc s) 1 then 1 else suc s) ≡ suc s = ground arith in
      rw (steps, recheck_every_match, select-thin prev f (suc s) 0 (range prev.len))
        (get_elem?-thin s 0 0 k (k * suc s) _ (inl (zero-mod (suc s), refl)) (omega arith))
