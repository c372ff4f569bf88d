-- ===== src/Prelude/Sorting.antt =====
-- Python's `sorted(xs, key=...)`: a stable sort by a Boolean order, and lexicographic keys.
use Prim.Native.Nat.{Ordering, ◌+◌}
use Prim.Native.String.{String}
use Prim.Native.String
use mathlib.Core.Path.{◌≡◌, refl}
use mathlib.Core.Bool.{Bool, true, false}
use mathlib.Core.List.{List, [], ◌∷◌, Perm}
use mathlib.Core.List.Perm
use native.Mathlib.Omega.{arith}
use agentic_soc_triage_assis.Prelude.Tests.{if◌then◌else◌, if_ind}
use agentic_soc_triage_assis.Prelude.Lists.{length, All}

-- Tuples are compared field by field: the next field counts where this one is equal.
abbrev pub then_by : Ordering → Ordering → Ordering
then_by Ordering.eq next = next
then_by Ordering.lt next = Ordering.lt
then_by Ordering.gt next = Ordering.gt

-- The negation of a key turns its order round.
abbrev pub reversed : Ordering → Ordering
reversed Ordering.eq = Ordering.eq
reversed Ordering.lt = Ordering.gt
reversed Ordering.gt = Ordering.lt

abbrev pub not_after : Ordering → Bool
not_after Ordering.gt = false
not_after _ = true

abbrev pub is_before : Ordering → Bool
is_before Ordering.lt = true
is_before _ = false

-- Strings by code points, which is the order of their UTF-8 bytes.
abbrev pub compare_text : String → String → Ordering
compare_text s t = String.compare s t

module _ {ℓ} {A : Type ℓ} (le : A → A → Bool) where
  unfoldable pub insert_sorted : A → List A → List A
  insert_sorted x [] = x ∷ []
  insert_sorted x (y ∷ ys) = if le x y then x ∷ y ∷ ys else y ∷ insert_sorted x ys

  unfoldable pub sort_by : List A → List A
  unfolding insert_sorted
  sort_by [] = []
  sort_by (x ∷ xs) = insert_sorted x (sort_by xs)

  pub insert_sorted-perm : (x : A) (ys : List A) → Perm (insert_sorted x ys) (x ∷ ys)
  unfolding insert_sorted
  insert_sorted-perm x [] = Perm.rfl
  insert_sorted-perm x (y ∷ ys) =
      if_ind (λ l. Perm l (x ∷ y ∷ ys)) (le x y) (λ _. Perm.rfl)
        (λ _. Perm.trans (Perm.cons y (insert_sorted-perm x ys)) (Perm.swap x y ys))

  -- Sorting loses nothing and adds nothing.
  pub sort_by-perm : (xs : List A) → Perm (sort_by xs) xs
  unfolding sort_by
  sort_by-perm [] = Perm.rfl
  sort_by-perm (x ∷ xs) =
      Perm.trans (insert_sorted-perm x (sort_by xs)) (Perm.cons x (sort_by-perm xs))

  pub insert_sorted-All {κ} :
      (P : A → Type κ) (x : A) (ys : List A) → P x → All P ys → All P (insert_sorted x ys)
  unfolding insert_sorted
  insert_sorted-All P x [] p h = (p, tt)
  insert_sorted-All P x (y ∷ ys) p h =
      if_ind (All P) (le x y) (λ _. (p, (h.0, h.1))) (λ _. (h.0, insert_sorted-All P x ys p h.1))

  pub sort_by-All {κ} : (P : A → Type κ) (xs : List A) → All P xs → All P (sort_by xs)
  unfolding sort_by
  sort_by-All P [] h = tt
  sort_by-All P (x ∷ xs) h = insert_sorted-All P x (sort_by xs) h.0 (sort_by-All P xs h.1)

  length-insert_sorted : (x : A) (ys : List A) → length (insert_sorted x ys) ≡ length ys + 1
  unfolding insert_sorted
  length-insert_sorted x [] = omega arith
  length-insert_sorted x (y ∷ ys) =
      if_ind (λ (l : List A). length l ≡ length (y ∷ ys) + 1) (le x y) (λ _. omega arith)
        (λ _. omega (arith, length-insert_sorted x ys))

  pub length-sort_by : (xs : List A) → length (sort_by xs) ≡ length xs
  unfolding sort_by
  length-sort_by [] = refl
  length-sort_by (x ∷ xs) = omega (arith, length-insert_sorted x (sort_by xs), length-sort_by xs)
