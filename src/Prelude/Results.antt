-- ===== src/Prelude/Results.antt =====
-- How a Go call can end: a value, an error value, or a panic (an index or a slice out of range).
use mathlib.Core.Bool.{Bool, true, false}
use mathlib.Core.Path.{◌≡◌, refl, subst}
use www_scanner.Prelude.Tests.{if◌then◌else◌}

pub data Result {ℓ κ} (E : Type ℓ) (A : Type κ) : Type (ℓ ⊔ κ) where
  ok : A → Result E A
  err : E → Result E A
  panic : Result E A

infixl 5 ◌>>=◌
abbrev pub ◌>>=◌ {ℓ κ ι} :
    {E : Type ℓ} {A : Type κ} {B : Type ι} → Result E A → (A → Result E B) → Result E B
ok a >>= f = f a
err e >>= f = err e
panic >>= f = panic

module _ {ℓ κ} {E : Type ℓ} {A : Type κ} where
  -- If the call returns a value, then the value has the property.
  abbrev pub Always {ι} : (A → Type ι) → Result E A → Type ι
  Always P (ok a) = P a
  Always P (err e) = Unit
  Always P panic = Unit

  pub Always-elim {ι} : (P : A → Type ι) (r : Result E A) (a : A) → Always P r → r ≡ ok a → P a
  Always-elim P r a h e = subst (Always P) e h

  pub Always-if {ι} :
      (P : A → Type ι) (b : Bool) (x y : Result E A)
      → (b ≡ true → Always P x)
      → (b ≡ false → Always P y)
      → Always P (if b then x else y)
  Always-if P true x y hx hy = hx refl
  Always-if P false x y hx hy = hy refl

pub Always-bind {ℓ κ ι μ} :
    {E : Type ℓ} {A : Type κ} {B : Type ι} (P : B → Type μ) (r : Result E A) (k : A → Result E B)
    → ((a : A) → r ≡ ok a → Always P (k a))
    → Always P (r >>= k)
Always-bind P (ok a) k h = h a refl
Always-bind P (err e) k h = tt
Always-bind P panic k h = tt

-- the same call with its error wrapped in another
abbrev pub map_err {ℓ κ ι} :
    {E : Type ℓ} {F : Type κ} {A : Type ι} → (E → F) → Result E A → Result F A
map_err f (ok a) = ok a
map_err f (err e) = err (f e)
map_err f panic = panic

pub Always-map_err {ℓ κ ι μ} :
    {E : Type ℓ} {F : Type κ} {A : Type ι} (P : A → Type μ) (f : E → F) (r : Result E A)
    → Always P r
    → Always P (map_err f r)
Always-map_err P f (ok a) h = h
Always-map_err P f (err e) h = tt
Always-map_err P f panic h = tt
