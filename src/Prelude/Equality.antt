-- ===== src/Prelude/Equality.antt =====
-- Python's `==` on the types that the program compares, by instances.
use Prim.Native.Nat.{ℕ}
use Prim.Native.String.{String}
use mathlib.Core.Path.{◌≡◌, refl}
use mathlib.Core.Logic.{◌↔◌}
use mathlib.Core.Bool.{Bool, true}
use native.Mathlib.Omega.{arith}
use text.Mathlib.Text.{◌==◌ as text_beq}
use text.Mathlib.TextEquality.{eq_iff as text_beq_iff}
use agentic_soc_triage_assis.Prelude.Tests.{nat_beq, nat_beq_iff}

-- A test that decides the path type.
pub record HasEquality {ℓ} (X : Type ℓ) : Type ℓ where
  pub equals : (x y : X) → Bool
  pub equals_iff : (x y : X) → (equals x y ≡ true) ↔ (x ≡ y)

instance abbrev pub text_equality : HasEquality String
text_equality = record { equals = text_beq; equals_iff = text_beq_iff }

module _ {ℓ} {A : Type ℓ} ⦃e : HasEquality A⦄ where
  infix 50 ◌==◌
  abbrev pub ◌==◌ : (x y : A) → Bool
  x == y = e.equals x y

  pub eq_of_beq : (a b : A) → (a == b) ≡ true → a ≡ b
  eq_of_beq a b h = (e.equals_iff a b).0 h

  pub beq_refl : (a : A) → (a == a) ≡ true
  beq_refl a = (e.equals_iff a a).1 refl

  pub beq_comm : (a b : A) → (a == b) ≡ (b == a)
  beq_comm a b = ground (arith, e.equals_iff a b, e.equals_iff b a)

instance abbrev pub number_equality : HasEquality ℕ
number_equality = record { equals = nat_beq; equals_iff = nat_beq_iff }
