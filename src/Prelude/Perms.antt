-- ===== src/Prelude/Perms.antt =====
-- What a permutation keeps.
use mathlib.Core.Path.{◌≡◌, refl, sym, ap, ◌∙◌}
use mathlib.Core.Logic.{∥∥₁_elim}
use mathlib.Core.Bool.{Bool, Bool-set, true, not, ◌&&◌}
use native.Mathlib.Nat.{ℕ_set}
use mathlib.Core.List.{List, [], ◌∷◌, ◌++◌, Perm, Permᴰ}
use native.Mathlib.Omega.{arith}
use agentic_soc_triage_assis.Prelude.Lists.{any, all, All, length}
use agentic_soc_triage_assis.Prelude.Tests.{and_split}

module _ {ℓ} {A : Type ℓ} where
  any-Permᴰ : (p : A → Bool) (xs ys : List A) → Permᴰ xs ys → any p xs ≡ any p ys
  any-Permᴰ p _ _ Permᴰ.nil = refl
  any-Permᴰ p _ _ (Permᴰ.cons {l₁ = xs} {l₂ = ys} e d) = ground (arith, ap p e, any-Permᴰ p xs ys d)
  any-Permᴰ p _ _ (Permᴰ.swap e f) = ground (arith, ap p e, ap p f)
  any-Permᴰ p _ _ (Permᴰ.trans {l₁ = xs} {l₂ = ys} {l₃ = zs} c d) =
      any-Permᴰ p xs ys c ∙ any-Permᴰ p ys zs d

  length-Permᴰ : (xs ys : List A) → Permᴰ xs ys → length xs ≡ length ys
  length-Permᴰ _ _ Permᴰ.nil = refl
  length-Permᴰ _ _ (Permᴰ.cons {l₁ = xs} {l₂ = ys} e d) = omega (arith, length-Permᴰ xs ys d)
  length-Permᴰ _ _ (Permᴰ.swap e f) = refl
  length-Permᴰ _ _ (Permᴰ.trans {l₁ = xs} {l₂ = ys} {l₃ = zs} c d) =
      length-Permᴰ xs ys c ∙ length-Permᴰ ys zs d

  pub any-Perm : (p : A → Bool) (xs ys : List A) → Perm xs ys → any p xs ≡ any p ys
  any-Perm p xs ys h = ∥∥₁_elim h (Bool-set (any p xs) (any p ys)) (any-Permᴰ p xs ys)

  pub length-Perm : (xs ys : List A) → Perm xs ys → length xs ≡ length ys
  length-Perm xs ys h = ∥∥₁_elim h (ℕ_set (length xs) (length ys)) (length-Permᴰ xs ys)

  pub all-any : (p : A → Bool) (xs : List A) → all p xs ≡ not (any (λ x. not (p x)) xs)
  all-any p [] = refl
  all-any p (x ∷ xs) = ground (arith, all-any p xs)

  pub all-Perm : (p : A → Bool) (xs ys : List A) → Perm xs ys → all p xs ≡ all p ys
  all-Perm p xs ys h =
      all-any p xs ∙ ap not (any-Perm (λ x. not (p x)) xs ys h) ∙ sym (all-any p ys)

  pub all-append : (p : A → Bool) (xs ys : List A) → all p (xs ++ ys) ≡ (all p xs && all p ys)
  all-append p [] ys = refl
  all-append p (x ∷ xs) ys = ground (arith, all-append p xs ys)

  pub All-all : (p : A → Bool) (xs : List A) → all p xs ≡ true → All (λ x. p x ≡ true) xs
  All-all p [] h = tt
  All-all p (x ∷ xs) h = let parts = and_split (p x) (all p xs) h in (parts.0, All-all p xs parts.1)
