-- ===== src/Detection/Silence.antt =====
-- What suppression can hide, and what it cannot.
use agentic_soc_triage_assis.Detection.Model.{TextMethods, Signal, Event}
use agentic_soc_triage_assis.Prelude.{
  [], none, some, true, false, inl, inr, refl, ◌≡◌, ◌∷◌, ◌+◌, if◌then◌else◌, String, Option, Bool,
  List, is_none, filter, ap, Option-cases, length, arith,
}
use agentic_soc_triage_assis.Detection.Suppression.{
  suppress_by_target, is_in_any, is_suppressed, SuppressionPolicy, new_policy, suppress_signals,
  is_late_rst_spi_pattern, late_rst_suppression_reason, source_of,
}

module _ (text : TextMethods) {Address : Type 0} (ip_address : String → Option Address)
    (in_network : Address → String → Option Bool) where
  no_sources : (o : Option Address) → is_in_any text ip_address in_network o [] ≡ false
  no_sources none = refl
  no_sources (some a) = refl

  no_targets :
      (signal : Signal) (targets : List String)
      → suppress_by_target text ip_address in_network new_policy signal targets ≡ none
  unfolding suppress_by_target
  no_targets signal [] = refl
  no_targets signal (target ∷ targets) =
      rw (no_sources (ip_address target)) (no_targets signal targets)

  -- Whatever `ipaddress` and Python's text methods give: under the policy that the engine starts with, a
  -- signal is suppressed exactly when it is a late-reset pattern, with that reason.
  pub is_suppressed-new_policy :
      (signal : Signal) (event_lookup : String → Option Event)
      → is_suppressed text ip_address in_network new_policy signal event_lookup ≡ (
          if is_late_rst_spi_pattern text signal event_lookup
          then some late_rst_suppression_reason
          else none)
  unfolding is_suppressed
  is_suppressed-new_policy signal event_lookup =
      rw
        (
          no_sources (source_of text ip_address in_network signal),
          no_targets signal signal.target_entities,
        )
        refl

  -- A signal that was suppressed says so, with its reason.
  abbrev pub mark : Signal → String → Signal
  mark s reason = record s { suppressed = true; suppression_reason = some reason }

  abbrev mark_if : Signal → Option String → List Signal → List Signal
  mark_if s none rest = rest
  mark_if s (some reason) rest = mark s reason ∷ rest

  -- The signals with a reason, each with its mark.
  abbrev pub marked : (Signal → Option String) → List Signal → List Signal
  marked reason_of [] = []
  marked reason_of (s ∷ signals) = mark_if s (reason_of s) (marked reason_of signals)

  module _ (policy : SuppressionPolicy) (event_lookup : String → Option Event) where
    abbrev pub reason_for : Signal → Option String
    reason_for s = is_suppressed text ip_address in_network policy s event_lookup

    -- Whatever `ipaddress` and Python's text methods give: the active signals are those for which the
    -- policy has no reason, unchanged and in their order, the suppressed ones those for which it has
    -- one, in their order, with the mark and that reason, and the two counts add up.
    pub suppress_signals-partition :
        (signals : List Signal)
        → let done = suppress_signals text ip_address in_network policy event_lookup signals in
          (done.active_signals ≡ filter (λ s. is_none (reason_for s)) signals)
          × (done.suppressed_signals ≡ marked reason_for signals)
          × (length done.active_signals + length done.suppressed_signals ≡ length signals)
    unfolding suppress_signals
    suppress_signals-partition [] = (refl, refl, refl)
    suppress_signals-partition (s ∷ signals) =
        let ih = suppress_signals-partition signals in
        elim (Option-cases (is_suppressed text ip_address in_network policy s event_lookup)) [
          | inl active ↦ rw active (ap (λ l. s ∷ l) ih.0, ih.1, omega (arith, ih.2))
          | inr (reason, hit) ↦ rw hit (ih.0, ap (λ l. mark s reason ∷ l) ih.1, omega (arith, ih.2))
        ]
