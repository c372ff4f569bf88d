-- ===== src/Detection/Sharing.antt =====
-- Correlation rests on shared events.
use agentic_soc_triage_assis.Prelude.{
  String, List, ℕ, [], true, false, inl, inr, refl, ◌≡◌, ◌∷◌, ◌==◌, ◌⊎◌, contains, is_empty,
  intersects, is_subset, Bool-cases, and_split, arith, text_equality, eq_of_beq,
}
use agentic_soc_triage_assis.Detection.Clusters.{
  Ratio, cross_primary_exposure_correlation_allowed, signals_may_correlate,
  has_shared_event_evidence, same_primary_entity,
}
use agentic_soc_triage_assis.Detection.Model.{Signal}

contains-shared :
    (id : String) (xs ys : List String)
    → contains id xs ≡ true
    → contains id ys ≡ true
    → intersects xs ys ≡ true
contains-shared id [] ys h k = cc
contains-shared id (x ∷ xs) ys h k = elim (Bool-cases (id == x)) [
  | inl same ↦ ground (arith, eq_of_beq id x same)
  | inr apart ↦ ground (arith, contains-shared id xs ys)
]

subset-shared :
    (xs ys : List String) → is_empty xs ≡ false → is_subset xs ys ≡ true → intersects xs ys ≡ true
subset-shared [] ys h k = cc
subset-shared (x ∷ xs) ys h k = rw (and_split (contains x ys) (is_subset xs ys) k).0 refl

module _ (window_seconds : ℕ) (threshold : Ratio) where
  cross_primary-shares :
      (a c : Signal)
      → cross_primary_exposure_correlation_allowed a c window_seconds ≡ true
      → intersects a.event_ids c.event_ids ≡ true
  unfolding cross_primary_exposure_correlation_allowed
  cross_primary-shares a c h = ground (arith, subset-shared a.event_ids c.event_ids)

  -- Signals that may correlate share an event, whatever the threshold, and either have the same primary
  -- entity or stand on exactly the same events.
  pub signals_may_correlate-shares :
      (a c : Signal)
      → signals_may_correlate window_seconds threshold a c ≡ true
      → (intersects a.event_ids c.event_ids ≡ true)
        × ((a.primary_entity ≡ c.primary_entity)
            ⊎ ((is_subset a.event_ids c.event_ids ≡ true)
                × (is_subset c.event_ids a.event_ids ≡ true)))
  unfolding signals_may_correlate has_shared_event_evidence same_primary_entity
      cross_primary_exposure_correlation_allowed
  signals_may_correlate-shares a c h =
      ground (arith, cross_primary-shares a c, eq_of_beq a.primary_entity c.primary_entity)
