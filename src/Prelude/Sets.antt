-- ===== src/Prelude/Sets.antt =====
-- Python sets as lists that are read by `contains`, and `sorted` on them.
use mathlib.Core.Path.{◌≡◌, refl, ap, sym, subst, ◌∙◌}
use mathlib.Core.Logic.{inl, inr}
use mathlib.Core.Bool.{Bool, true, false, ◌||◌}
use mathlib.Core.List.{List, [], ◌∷◌, ◌++◌, map}
use native.Mathlib.Omega.{arith}
use agentic_soc_triage_assis.Prelude.Tests.{if◌then◌else◌, Bool-cases, if_ind}
use agentic_soc_triage_assis.Prelude.Equality.{HasEquality, ◌==◌, eq_of_beq, beq_refl, beq_comm}
use agentic_soc_triage_assis.Prelude.Lists.{contains, is_distinct, All, any, intersects, All-weaken}
use agentic_soc_triage_assis.Prelude.Sorting.{insert_sorted, sort_by}

module _ {ℓ} {A : Type ℓ} ⦃e : HasEquality A⦄ where
  -- `s.add(x)`, where `s` has no element twice.
  abbrev pub add_member : A → List A → List A
  add_member x s = if contains x s then s else x ∷ s

  -- `set(xs)`.
  unfoldable pub to_set : List A → List A
  to_set [] = []
  to_set (x ∷ xs) = add_member x (to_set xs)

  contains-add_member :
      (a x : A) (s : List A) → contains a (add_member x s) ≡ ((a == x) || contains a s)
  contains-add_member a x s = elim (Bool-cases (a == x)) [
    | inl same ↦
        ground (arith, eq_of_beq a x same, ap (λ z. contains z s) (eq_of_beq a x same), beq_refl a)
    | inr differ ↦ ground arith
  ]

  pub contains-to_set : (a : A) (xs : List A) → contains a (to_set xs) ≡ contains a xs
  unfolding to_set
  contains-to_set a [] = refl
  contains-to_set a (x ∷ xs) =
      contains-add_member a x (to_set xs) ∙ ap (λ b. (a == x) || b) (contains-to_set a xs)

  pub to_set-distinct : (xs : List A) → is_distinct (to_set xs) ≡ true
  unfolding to_set
  to_set-distinct [] = refl
  to_set-distinct (x ∷ xs) = elim (Bool-cases (contains x (to_set xs))) [
    | inl there ↦ ground (arith, to_set-distinct xs)
    | inr new ↦ ground (arith, to_set-distinct xs)
  ]

  pub to_set-All {κ} : (P : A → Type κ) (xs : List A) → All P xs → All P (to_set xs)
  unfolding to_set
  to_set-All P [] h = h
  to_set-All P (x ∷ xs) h =
      if_ind (All P) (contains x (to_set xs)) (λ _. to_set-All P xs h.1)
        (λ _. (h.0, to_set-All P xs h.1))

  pub contains-append :
      (a : A) (xs ys : List A) → contains a (xs ++ ys) ≡ (contains a xs || contains a ys)
  contains-append a [] ys = refl
  contains-append a (x ∷ xs) ys = ground (arith, contains-append a xs ys)

  -- What holds of all elements holds of one that is there.
  pub All-contains {κ} :
      (P : A → Type κ) (x : A) (xs : List A) → All P xs → contains x xs ≡ true → P x
  All-contains P x [] h k = absurd (ground (arith, k))
  All-contains P x (y ∷ xs) h k = elim (Bool-cases (x == y)) [
    | inl same ↦ subst P (sym (eq_of_beq x y same)) h.0
    | inr differ ↦ All-contains P x xs h.1 (ground (arith, k, differ))
  ]

  pub intersects-apart :
      (ids xs ys : List A)
      → All (λ x. contains x ids ≡ true) xs
      → All (λ y. contains y ids ≡ false) ys
      → intersects xs ys ≡ false
  intersects-apart ids [] ys inside outside = refl
  intersects-apart ids (x ∷ xs) ys inside outside = elim (Bool-cases (contains x ys)) [
    | inl both ↦
        let out = All-contains (λ y. contains y ids ≡ false) x ys outside both in
        absurd (ground (arith, out, inside.0))
    | inr apart ↦ ground (arith, apart, intersects-apart ids xs ys inside.1 outside)
  ]

  -- Every element is there.
  pub contains-own : (before xs : List A) → All (λ x. contains x (before ++ xs) ≡ true) xs
  contains-own before [] = tt
  contains-own before (x ∷ xs) = (
    ground (arith, contains-append x before (x ∷ xs), beq_refl x),
    All-weaken xs
        (λ y h. ground (arith, contains-append y before (x ∷ xs), contains-append y before xs, h))
        (contains-own before xs),
  )

-- Sorting changes no set of keys.
module _ {ℓ κ} {A : Type ℓ} {K : Type κ} ⦃e : HasEquality K⦄ (key : A → K) (le : A → A → Bool) where
  contains-insert_sorted :
      (k : K) (x : A) (ys : List A)
      → contains k (map key (insert_sorted le x ys)) ≡ ((k == key x) || contains k (map key ys))
  unfolding insert_sorted
  contains-insert_sorted k x [] = refl
  contains-insert_sorted k x (y ∷ ys) = elim (Bool-cases (le x y)) [
    | inl before ↦ rw before refl
    | inr after ↦ rw after (ground (arith, contains-insert_sorted k x ys))
  ]

  pub contains-sort_by :
      (k : K) (xs : List A) → contains k (map key (sort_by le xs)) ≡ contains k (map key xs)
  unfolding sort_by
  contains-sort_by k [] = refl
  contains-sort_by k (x ∷ xs) =
      contains-insert_sorted k x (sort_by le xs)
      ∙ ap (λ b. (k == key x) || b) (contains-sort_by k xs)

  is_distinct-insert_sorted :
      (x : A) (ys : List A)
      → contains (key x) (map key ys) ≡ false
      → is_distinct (map key ys) ≡ true
      → is_distinct (map key (insert_sorted le x ys)) ≡ true
  unfolding insert_sorted
  is_distinct-insert_sorted x [] new d = refl
  is_distinct-insert_sorted x (y ∷ ys) new d = elim (Bool-cases (le x y)) [
    | inl before ↦ rw before (ground (arith, new, d))
    | inr after ↦ rw after (
        ground (
          arith,
          contains-insert_sorted (key y) x ys,
          is_distinct-insert_sorted x ys,
          beq_comm (key x) (key y),
          new,
          d,
        ))
  ]

  pub is_distinct-sort_by :
      (xs : List A) → is_distinct (map key xs) ≡ true → is_distinct (map key (sort_by le xs)) ≡ true
  unfolding sort_by
  is_distinct-sort_by [] d = refl
  is_distinct-sort_by (x ∷ xs) d =
      is_distinct-insert_sorted x (sort_by le xs) (contains-sort_by (key x) xs ∙ ground (arith, d))
        (is_distinct-sort_by xs (ground (arith, d)))

module _ {ℓ} {A : Type ℓ} (p : A → Bool) where
  pub any-append : (xs ys : List A) → any p (xs ++ ys) ≡ (any p xs || any p ys)
  any-append [] ys = refl
  any-append (x ∷ xs) ys = ground (arith, any-append xs ys)

  any-insert_sorted :
      (le : A → A → Bool) (x : A) (ys : List A) → any p (insert_sorted le x ys) ≡ (p x || any p ys)
  unfolding insert_sorted
  any-insert_sorted le x [] = refl
  any-insert_sorted le x (y ∷ ys) = elim (Bool-cases (le x y)) [
    | inl before ↦ ground arith
    | inr after ↦ ground (arith, any-insert_sorted le x ys)
  ]

  pub any-sort_by : (le : A → A → Bool) (xs : List A) → any p (sort_by le xs) ≡ any p xs
  unfolding sort_by
  any-sort_by le [] = refl
  any-sort_by le (x ∷ xs) =
      any-insert_sorted le x (sort_by le xs) ∙ ap (λ b. p x || b) (any-sort_by le xs)
