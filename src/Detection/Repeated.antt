-- ===== src/Detection/Repeated.antt =====
-- De-duplication of signals (agent/detection/engine.py) loses no event.
use agentic_soc_triage_assis.Prelude.{
  Dict, [], inl, inr, refl, ◌≡◌, ◌∷◌, ◌++◌, ◌||◌, ◌==◌, ◌∙◌, String, Bool, List, any, ℕ, Bool-cases,
  arith, any-append, sort_by, text_equality, any-sort_by,
}
use agentic_soc_triage_assis.Detection.Model.{Signal}
use agentic_soc_triage_assis.Detection.Repeats.{
  append_group, group_signals, merge_repeat, absorb_repeat, absorb_repeats, merge_rules,
  merge_sources, deduplicate_signals, repeats, not_later_signal,
}
use agentic_soc_triage_assis.Detection.Building.{BuildMethods}
use agentic_soc_triage_assis.Detection.Covering.{cites_event}
use agentic_soc_triage_assis.Detection.Bundles.{contains-sorted_union}

abbrev grouped : Dict String (List Signal) → List Signal
grouped [] = []
grouped (entry ∷ groups) = entry.1 ++ grouped groups

-- A test that a merged signal passes exactly if one of the two does.
abbrev IsShared : (p : Signal → Bool) → BuildMethods → Type 0
IsShared p build =
    (previous current : Signal)
    → p (merge_repeat build previous current) ≡ (p previous || p current)

module _ (p : Signal → Bool) where
  any-append_group :
      (key : String) (s : Signal) (groups : Dict String (List Signal))
      → any p (grouped (append_group key s groups)) ≡ (p s || any p (grouped groups))
  unfolding append_group
  any-append_group key s [] = refl
  any-append_group key s (entry ∷ groups) = elim (Bool-cases (entry.0 == key)) [
    | inl same ↦ rw same (
        ground (
          arith,
          any-append p (entry.1 ++ (s ∷ [])) (grouped groups),
          any-append p entry.1 (s ∷ []),
          any-append p entry.1 (grouped groups),
        ))
    | inr differ ↦ rw differ (
        ground (
          arith,
          any-append p entry.1 (grouped (append_group key s groups)),
          any-append p entry.1 (grouped groups),
          any-append_group key s groups,
        ))
  ]

  any-group_signals :
      (key : Signal → String) (signals : List Signal) (groups : Dict String (List Signal))
      → any p (grouped (group_signals key signals groups))
        ≡ (any p signals || any p (grouped groups))
  unfolding group_signals
  any-group_signals key [] groups = refl
  any-group_signals key (s ∷ signals) groups = ground (
    arith,
    any-group_signals key signals (append_group (key s) s groups),
    any-append_group (key s) s groups,
  )

  module _ (build : BuildMethods) (window : ℕ) (shared : IsShared p build) where
    any-absorb_repeat :
        (current : Signal) (merged_list : List Signal)
        → any p (absorb_repeat build window current merged_list) ≡ (any p merged_list || p current)
    unfolding absorb_repeat
    any-absorb_repeat current [] = ground arith
    any-absorb_repeat current (previous ∷ []) =
        elim (Bool-cases (repeats window current previous)) [
          | inl repeated ↦ rw repeated (ground (arith, shared previous current))
          | inr new ↦ rw new (ground arith)
        ]
    any-absorb_repeat current (s ∷ previous ∷ merged_list) =
        ground (arith, any-absorb_repeat current (previous ∷ merged_list))

    any-absorb_repeats :
        (signals merged_list : List Signal)
        → any p (absorb_repeats build window signals merged_list)
          ≡ (any p merged_list || any p signals)
    unfolding absorb_repeats
    any-absorb_repeats [] merged_list = ground arith
    any-absorb_repeats (current ∷ signals) merged_list = ground (
      arith,
      any-absorb_repeats signals (absorb_repeat build window current merged_list),
      any-absorb_repeat current merged_list,
    )

    any-merge_rules :
        (rules : Dict String (List Signal))
        → any p (merge_rules build window rules) ≡ any p (grouped rules)
    unfolding merge_rules
    any-merge_rules [] = refl
    any-merge_rules (entry ∷ rules) =
        let sorted = sort_by not_later_signal entry.1 in
        ground (
          arith,
          any-append p (absorb_repeats build window sorted []) (merge_rules build window rules),
          any-append p entry.1 (grouped rules),
          any-absorb_repeats sorted [],
          any-sort_by p not_later_signal entry.1,
          any-merge_rules rules,
        )

    any-merge_sources :
        (sources : Dict String (List Signal))
        → any p (merge_sources build window sources) ≡ any p (grouped sources)
    unfolding merge_sources
    any-merge_sources [] = refl
    any-merge_sources (entry ∷ sources) =
        let rules = group_signals (λ (s : Signal). s.rule_id) entry.1 [] in
        ground (
          arith,
          any-append p (merge_rules build window rules) (merge_sources build window sources),
          any-append p entry.1 (grouped sources),
          any-merge_rules rules,
          any-group_signals (λ (s : Signal). s.rule_id) entry.1 [],
          any-merge_sources sources,
        )

    any-deduplicate_signals :
        (signals : List Signal) → any p (deduplicate_signals build window signals) ≡ any p signals
    unfolding deduplicate_signals
    any-deduplicate_signals signals =
        any-merge_sources (group_signals (λ (s : Signal). s.primary_entity) signals [])
        ∙ any-group_signals (λ (s : Signal). s.primary_entity) signals []
        ∙ ground arith

merge_repeat-cites : (build : BuildMethods) (id : String) → IsShared (cites_event id) build
unfolding merge_repeat
merge_repeat-cites build id previous current =
    contains-sorted_union id current.event_ids previous.event_ids ∙ ground arith

-- Whatever the digests give: an event is cited by one of the signals after the de-duplication exactly if
-- it was cited by one before.
pub deduplicate_signals-cites :
    (build : BuildMethods) (merge_window_seconds : ℕ) (signals : List Signal) (id : String)
    → any (cites_event id) (deduplicate_signals build merge_window_seconds signals)
      ≡ any (cites_event id) signals
deduplicate_signals-cites build merge_window_seconds signals id =
    any-deduplicate_signals (cites_event id) build merge_window_seconds
      (merge_repeat-cites build id) signals
