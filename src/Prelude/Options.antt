-- ===== src/Prelude/Options.antt =====
-- Options: tests, and a `do` block that stops at the first `none`.
use mathlib.Core.Path.{◌≡◌, refl}
use mathlib.Core.Logic.{◌⊎◌, inl, inr}
use mathlib.Core.Bool.{Bool, true, false}
use mathlib.Core.Option.{Option, none, some}

module _ {ℓ} {A : Type ℓ} where
  abbrev pub is_some : Option A → Bool
  is_some none = false
  is_some (some a) = true

  abbrev pub is_none : Option A → Bool
  is_none none = true
  is_none (some a) = false

  pub Option-cases : (o : Option A) → (o ≡ none) ⊎ ((a : A) × (o ≡ some a))
  Option-cases none = inl refl
  Option-cases (some a) = inr (a, refl)

infixl 1 ◌>>=◌
-- `none` is an exception that nothing catches.
abbrev pub ◌>>=◌ {ℓ κ} : {A : Type ℓ} {B : Type κ} → Option A → (A → Option B) → Option B
none >>= f = none
(some a) >>= f = f a
