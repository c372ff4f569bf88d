-- ===== src/Prelude/Lists.antt =====
-- Lists with Boolean tests and native lengths, predicates over lists, and Python's `in`.
use Prim.Native.Nat.{ℕ, zero, suc, ◌+◌, ◌≤◌, min}
use mathlib.Core.Path.{◌≡◌, refl}
use mathlib.Core.Logic.{inl, inr}
use mathlib.Core.Bool.{Bool, true, false, not, ◌&&◌, ◌||◌}
use mathlib.Core.Option.{Option, none, some}
use mathlib.Core.List.{List, [], ◌∷◌, ◌++◌}
use native.Mathlib.Omega.{arith}
use agentic_soc_triage_assis.Prelude.Tests.{if◌then◌else◌, Bool-cases}
use agentic_soc_triage_assis.Prelude.Equality.{HasEquality, ◌==◌, eq_of_beq}

module _ {ℓ} {A : Type ℓ} where
  abbrev pub length : List A → ℕ
  length [] = 0
  length (x ∷ xs) = suc (length xs)

  abbrev pub take : ℕ → List A → List A
  take zero xs = []
  take (suc n) [] = []
  take (suc n) (x ∷ xs) = x ∷ take n xs

  abbrev pub is_empty : List A → Bool
  is_empty [] = true
  is_empty (x ∷ xs) = false

  abbrev pub any : (A → Bool) → List A → Bool
  any p [] = false
  any p (x ∷ xs) = p x || any p xs

  abbrev pub all : (A → Bool) → List A → Bool
  all p [] = true
  all p (x ∷ xs) = p x && all p xs

  -- The comprehension `[x for x in xs if p(x)]`.
  abbrev pub filter : (A → Bool) → List A → List A
  filter p [] = []
  filter p (x ∷ xs) = let rest = filter p xs in if p x then x ∷ rest else rest

  -- The first element that passes the test.
  abbrev pub find : (A → Bool) → List A → Option A
  find p [] = none
  find p (x ∷ xs) = if p x then some x else find p xs

  pub length-append : (xs ys : List A) → length (xs ++ ys) ≡ length xs + length ys
  length-append [] ys = omega arith
  length-append (x ∷ xs) ys = omega (arith, length-append xs ys)

  pub length-take : (n : ℕ) (xs : List A) → length (take n xs) ≡ min n (length xs)
  length-take zero xs = omega arith
  length-take (suc n) [] = omega arith
  length-take (suc n) (x ∷ xs) = omega (arith, length-take n xs)

  pub length-filter-le : (p : A → Bool) (xs : List A) → length (filter p xs) ≤ length xs
  length-filter-le p [] = omega arith
  length-filter-le p (x ∷ xs) = ground (arith, length-filter-le p xs)

module _ {ℓ κ} {A : Type ℓ} (P : A → Type κ) where
  -- `P` holds of every element.
  abbrev pub All : List A → Type κ
  All [] = Unit
  All (x ∷ xs) = P x × All xs

  pub All-append : (xs ys : List A) → All xs → All ys → All (xs ++ ys)
  All-append [] ys h k = k
  All-append (x ∷ xs) ys h k = (h.0, All-append xs ys h.1 k)

  pub All-filter : (p : A → Bool) (xs : List A) → All xs → All (filter p xs)
  All-filter p [] h = h
  All-filter p (x ∷ xs) h = ground (arith, All-filter p xs h.1)

module _ {ℓ} {A : Type ℓ} ⦃e : HasEquality A⦄ where
  -- Python's `a in xs`.
  abbrev pub contains : A → List A → Bool
  contains a [] = false
  contains a (x ∷ xs) = (a == x) || contains a xs

  -- `set(xs) <= set(ys)`.
  abbrev pub is_subset : List A → List A → Bool
  is_subset xs ys = all (λ x. contains x ys) xs

  -- `set(xs) & set(ys)` is not empty.
  abbrev pub intersects : List A → List A → Bool
  intersects xs ys = any (λ x. contains x ys) xs

  -- `len(xs) == len(set(xs))`: no element stands twice.
  abbrev pub is_distinct : List A → Bool
  is_distinct [] = true
  is_distinct (x ∷ xs) = not (contains x xs) && is_distinct xs

  pub contains-disjoint :
      (x : A) (xs ys : List A)
      → all (λ y. not (contains y ys)) xs ≡ true
      → contains x xs ≡ true
      → contains x ys ≡ false
  contains-disjoint x [] ys d h = cc
  contains-disjoint x (y ∷ xs) ys d h = elim (Bool-cases (x == y)) [
    | inl same ↦ ground (arith, eq_of_beq x y same)
    | inr differ ↦ ground (arith, contains-disjoint x xs ys)
  ]

module _ {ℓ} {A : Type ℓ} where
  -- What the comprehension keeps has passed the test.
  pub filter-All : (p : A → Bool) (xs : List A) → All (λ x. p x ≡ true) (filter p xs)
  filter-All p [] = tt
  filter-All p (x ∷ xs) = ground (arith, filter-All p xs)

  pub All-weaken {κ μ} :
      {P : A → Type κ} {Q : A → Type μ} (xs : List A) → ((x : A) → P x → Q x) → All P xs → All Q xs
  All-weaken [] f h = tt
  All-weaken (x ∷ xs) f h = (f x h.0, All-weaken xs f h.1)

  pub All-take {κ} : (P : A → Type κ) (n : ℕ) (xs : List A) → All P xs → All P (take n xs)
  All-take P zero xs h = tt
  All-take P (suc n) [] h = h
  All-take P (suc n) (x ∷ xs) h = (h.0, All-take P n xs h.1)

  pub take_all : (n : ℕ) (xs : List A) → length xs ≤ n → take n xs ≡ xs
  take_all zero [] fits = refl
  take_all (suc n) [] fits = refl
  take_all (suc n) (x ∷ xs) fits = ground (arith, take_all n xs)
  take_all zero (x ∷ xs) fits = absurd (omega arith)
