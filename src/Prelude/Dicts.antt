-- ===== src/Prelude/Dicts.antt =====
-- Python dictionaries as lists of entries, in the order of insertion.
use mathlib.Core.Path.{◌≡◌, refl, sym, subst}
use mathlib.Core.Logic.{inl, inr}
use mathlib.Core.Bool.{true, false, not}
use mathlib.Core.Option.{Option, none, some}
use mathlib.Core.List.{List, [], ◌∷◌, map}
use native.Mathlib.Omega.{arith}
use agentic_soc_triage_assis.Prelude.Tests.{if◌then◌else◌, Bool-cases}
use agentic_soc_triage_assis.Prelude.Equality.{HasEquality, ◌==◌, eq_of_beq, beq_refl}
use agentic_soc_triage_assis.Prelude.Lists.{filter, All}

abbrev pub Dict {ℓ κ} : Type ℓ → Type κ → Type (ℓ ⊔ κ)
Dict K V = List (K × V)

module _ {ℓ} {K : Type ℓ} ⦃e : HasEquality K⦄ where
  not_equal_of : (a k l : K) → (a == k) ≡ true → (k == l) ≡ false → (a == l) ≡ false
  not_equal_of a k l same other = subst (λ x. (x == l) ≡ false) (sym (eq_of_beq a k same)) other

module _ {ℓ κ} {K : Type ℓ} {V : Type κ} ⦃e : HasEquality K⦄ where
  -- `d.get(k)`.
  unfoldable pub get_entry : K → Dict K V → Option V
  get_entry k [] = none
  get_entry k (entry ∷ d) = if entry.0 == k then some entry.1 else get_entry k d

  -- `d[k] = v`: an entry keeps its place.
  unfoldable pub put_entry : K → V → Dict K V → Dict K V
  put_entry k v [] = (k, v) ∷ []
  put_entry k v (entry ∷ d) =
      let rest = put_entry k v d in if entry.0 == k then (entry.0, v) ∷ d else entry ∷ rest

  -- `del d[k]`.
  unfoldable pub delete_entry : K → Dict K V → Dict K V
  delete_entry k d = filter (λ (entry : K × V). not (entry.0 == k)) d

  pub get_entry-put_entry : (k : K) (v : V) (d : Dict K V) → get_entry k (put_entry k v d) ≡ some v
  unfolding get_entry put_entry
  get_entry-put_entry k v [] = rw (beq_refl k) refl
  get_entry-put_entry k v (entry ∷ d) = elim (Bool-cases (entry.0 == k)) [
    | inl same ↦ ground arith
    | inr differ ↦ ground (arith, get_entry-put_entry k v d)
  ]

  pub get_entry-put_entry_other :
      (k l : K) (v : V) (d : Dict K V)
      → (k == l) ≡ false
      → get_entry l (put_entry k v d) ≡ get_entry l d
  unfolding get_entry put_entry
  get_entry-put_entry_other k l v [] other = rw other refl
  get_entry-put_entry_other k l v (entry ∷ d) other = elim (Bool-cases (entry.0 == k)) [
    | inl same ↦ ground (arith, not_equal_of entry.0 k l same other)
    | inr differ ↦ ground (arith, get_entry-put_entry_other k l v d other)
  ]

  pub get_entry-delete_entry_other :
      (k l : K) (d : Dict K V) → (k == l) ≡ false → get_entry l (delete_entry k d) ≡ get_entry l d
  unfolding get_entry delete_entry
  get_entry-delete_entry_other k l [] other = refl
  get_entry-delete_entry_other k l (entry ∷ d) other = elim (Bool-cases (entry.0 == k)) [
    | inl same ↦
        ground
          (arith, not_equal_of entry.0 k l same other, get_entry-delete_entry_other k l d other)
    | inr differ ↦ ground (arith, get_entry-delete_entry_other k l d other)
  ]

  -- What holds of a value and of all others in the dictionary holds of all once it is put.
  pub put_entry-All {μ} :
      (P : V → Type μ) (k : K) (v : V) (d : Dict K V)
      → P v
      → All P (map (λ (entry : K × V). entry.1) d)
      → All P (map (λ (entry : K × V). entry.1) (put_entry k v d))
  unfolding put_entry
  put_entry-All P k v [] p h = (p, tt)
  put_entry-All P k v (entry ∷ d) p h = elim (Bool-cases (entry.0 == k)) [
    | inl same ↦ rw same (p, h.1)
    | inr differ ↦ rw differ (h.0, put_entry-All P k v d p h.1)
  ]
