-- ===== src/Prelude/Memory.antt =====
-- A block of memory as a list of cells, with stores that stay inside it.
use Prim.Native.Nat.{ℕ, zero, suc, ◌+◌, ◌≤◌}
use mathlib.Core.Path.{◌≡◌, refl, ap}
use mathlib.Core.List.{List, [], ◌∷◌}
use native.Mathlib.Omega.{arith}
use www_scanner.Prelude.Lists.{length, take, drop}

-- Store the cells `b` from offset `o` on; what would fall outside is dropped.
unfoldable pub overwrite {ℓ} : {A : Type ℓ} → ℕ → List A → List A → List A
overwrite o b [] = []
overwrite (suc o) b (y ∷ f) = y ∷ overwrite o b f
overwrite zero [] (y ∷ f) = y ∷ f
overwrite zero (x ∷ b) (y ∷ f) = x ∷ overwrite zero b f

-- the cells `[o, o + n)`
abbrev pub cells {ℓ} : {A : Type ℓ} → ℕ → ℕ → List A → List A
cells o n f = take n (drop o f)

module _ {ℓ} {A : Type ℓ} where
  pub length-overwrite : (o : ℕ) (b f : List A) → length (overwrite o b f) ≡ length f
  unfolding overwrite
  length-overwrite o b [] = refl
  length-overwrite (suc o) b (y ∷ f) = ap suc (length-overwrite o b f)
  length-overwrite zero [] (y ∷ f) = refl
  length-overwrite zero (x ∷ b) (y ∷ f) = ap suc (length-overwrite zero b f)

  overwrite_nothing : (f : List A) → overwrite zero [] f ≡ f
  unfolding overwrite
  overwrite_nothing [] = refl
  overwrite_nothing (y ∷ f) = refl

  -- What was stored is read back.
  pub cells-overwrite_self :
      (o : ℕ) (b f : List A) → o + length b ≤ length f → cells o (length b) (overwrite o b f) ≡ b
  unfolding overwrite
  cells-overwrite_self o [] f h = refl
  cells-overwrite_self (suc o) (x ∷ b) (y ∷ f) h = cells-overwrite_self o (x ∷ b) f (omega arith)
  cells-overwrite_self zero (x ∷ b) (y ∷ f) h =
      ap (◌∷◌ x) (cells-overwrite_self zero b f (omega arith))
  cells-overwrite_self o (x ∷ b) [] h = absurd (omega arith)

  -- Cells before the store, or behind it, keep their values.
  pub cells-overwrite_below :
      (o p n : ℕ) (b f : List A) → p + n ≤ o → cells p n (overwrite o b f) ≡ cells p n f
  unfolding overwrite
  cells-overwrite_below o p n b [] h = refl
  cells-overwrite_below o p zero b (y ∷ f) h = refl
  cells-overwrite_below (suc o) zero (suc n) b (y ∷ f) h =
      ap (◌∷◌ y) (cells-overwrite_below o zero n b f (omega arith))
  cells-overwrite_below (suc o) (suc p) (suc n) b (y ∷ f) h =
      cells-overwrite_below o p (suc n) b f (omega arith)
  cells-overwrite_below zero p (suc n) b (y ∷ f) h = absurd (omega arith)

  pub cells-overwrite_above :
      (o p n : ℕ) (b f : List A) → o + length b ≤ p → cells p n (overwrite o b f) ≡ cells p n f
  unfolding overwrite
  cells-overwrite_above o p n b [] h = refl
  cells-overwrite_above (suc o) (suc p) n b (y ∷ f) h =
      cells-overwrite_above o p n b f (omega arith)
  cells-overwrite_above zero p n [] (y ∷ f) h = refl
  cells-overwrite_above zero (suc p) n (x ∷ b) (y ∷ f) h =
      cells-overwrite_above zero p n b f (omega arith)
  cells-overwrite_above (suc o) zero n b (y ∷ f) h = absurd (omega arith)
  cells-overwrite_above zero zero n (x ∷ b) (y ∷ f) h = absurd (omega arith)

  -- Two stores that do not overlap commute.
  pub overwrite_comm :
      (o p : ℕ) (b c f : List A)
      → o + length b ≤ p
      → overwrite o b (overwrite p c f) ≡ overwrite p c (overwrite o b f)
  unfolding overwrite
  overwrite_comm o p b c [] h = refl
  overwrite_comm (suc o) (suc p) b c (y ∷ f) h = ap (◌∷◌ y) (overwrite_comm o p b c f (omega arith))
  overwrite_comm zero p [] c (y ∷ f) h = overwrite_nothing (overwrite p c (y ∷ f))
  overwrite_comm zero (suc p) (x ∷ b) c (y ∷ f) h =
      ap (◌∷◌ x) (overwrite_comm zero p b c f (omega arith))
  overwrite_comm (suc o) zero b c (y ∷ f) h = absurd (omega arith)
  overwrite_comm zero zero (x ∷ b) c (y ∷ f) h = absurd (omega arith)
