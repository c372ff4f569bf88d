-- ===== src/Detection/Repeats.antt =====
-- `DetectionEngine._deduplicate_signals` of agent/detection/engine.py: overlapping signals of one rule on
-- one entity become one. A signal that the source changes in place is a changed signal here. The ids
-- are those of `generate_signal_id` of agent/detection/models.py.
use agentic_soc_triage_assis.Prelude.{
  ◌<>◌, String, List, ℕ, [], ◌∷◌, ◌++◌, ◌+◌, ◌*◌, ◌&&◌, ◌==◌, if◌then◌else◌, Dict, Bool, ◌<>◌,
  contains, intersects, max, leb, sort_by, text_equality,
}
use agentic_soc_triage_assis.Detection.Model.{Signal, Evidence}
use agentic_soc_triage_assis.Detection.Bundles.{sorted_union, text_not_after}
use agentic_soc_triage_assis.Detection.Attached.{event_ids_in}
use agentic_soc_triage_assis.Detection.Building.{BuildMethods}

-- `groups[key].append(s)` on a `defaultdict(list)`.
unfoldable pub append_group :
    (key : String) → Signal → Dict String (List Signal) → Dict String (List Signal)
append_group key s [] = (key, s ∷ []) ∷ []
append_group key s (entry ∷ groups) =
    let rest = append_group key s groups in
    if entry.0 == key then (entry.0, entry.1 ++ (s ∷ [])) ∷ groups else entry ∷ rest

unfoldable pub group_signals :
    (key : Signal → String) → List Signal → Dict String (List Signal) → Dict String (List Signal)
unfolding append_group
group_signals key [] groups = groups
group_signals key (s ∷ signals) groups = group_signals key signals (append_group (key s) s groups)

-- `if ev.event_id not in seen_ev`, over the evidence of the later signal.
unfoldable pub add_unseen : (items evidence : List Evidence) → List Evidence
add_unseen [] evidence = evidence
add_unseen (item ∷ items) evidence =
    add_unseen items
      (if contains item.event_id (event_ids_in evidence) then evidence else evidence ++ (item ∷ []))

-- `",".join(texts)`.
abbrev pub join_commas : List String → String
join_commas [] = ""
join_commas (s ∷ []) = s
join_commas (s ∷ t ∷ texts) = s <> "," <> join_commas (t ∷ texts)

abbrev pub generate_signal_id :
    BuildMethods
    → (rule_id rule_version primary_entity correlation_key : String) → (first_seen : ℕ)
    → (event_ids : List String) → String
generate_signal_id build rule_id rule_version primary_entity correlation_key first_seen event_ids =
    "SIG-"
    <> build.id_digest (
        rule_id
        <> "|"
        <> rule_version
        <> "|"
        <> primary_entity
        <> "|"
        <> correlation_key
        <> "|"
        <> build.minute_text first_seen
        <> "|"
        <> join_commas (sort_by text_not_after event_ids))

-- `f"target_{...}" if prev_sig.target_entities else "multiple"`.
abbrev pub correlation_key_of : List String → String
correlation_key_of [] = "multiple"
correlation_key_of (target ∷ targets) = "target_" <> target

-- The changes to `prev_sig`.
unfoldable pub merge_repeat : BuildMethods → (previous current : Signal) → Signal
unfolding add_unseen
merge_repeat build previous current =
    let event_ids = sorted_union current.event_ids previous.event_ids in
    let target_entities = sorted_union previous.target_entities current.target_entities in
    record previous {
      event_ids = event_ids;
      last_seen = max previous.last_seen current.last_seen;
      target_entities = target_entities;
      evidence = add_unseen current.evidence previous.evidence;
      signal_id =
          generate_signal_id build previous.rule_id previous.rule_version previous.primary_entity
            (correlation_key_of target_entities) previous.first_seen event_ids;
    }

-- `rule_sigs.sort(key=first_seen)`.
abbrev pub not_later_signal : (a b : Signal) → Bool
not_later_signal a b = leb a.first_seen b.first_seen

unfoldable pub repeats : (merge_window_seconds : ℕ) → (current previous : Signal) → Bool
repeats merge_window_seconds current previous =
    intersects current.event_ids previous.event_ids
    && leb current.first_seen (previous.last_seen + merge_window_seconds * 1_000_000)

module _ (build : BuildMethods) (merge_window_seconds : ℕ) where
  -- The loop body: the last signal of the list takes the current one in, or the list grows.
  unfoldable pub absorb_repeat : (current : Signal) → (merged_list : List Signal) → List Signal
  unfolding repeats merge_repeat
  absorb_repeat current [] = current ∷ []
  absorb_repeat current (previous ∷ []) =
      if repeats merge_window_seconds current previous
      then merge_repeat build previous current ∷ []
      else previous ∷ current ∷ []
  absorb_repeat current (s ∷ previous ∷ merged_list) =
      s ∷ absorb_repeat current (previous ∷ merged_list)

  unfoldable pub absorb_repeats : List Signal → (merged_list : List Signal) → List Signal
  absorb_repeats [] merged_list = merged_list
  absorb_repeats (current ∷ signals) merged_list =
      absorb_repeats signals (absorb_repeat current merged_list)

  unfoldable pub merge_rules : Dict String (List Signal) → List Signal
  unfolding absorb_repeats
  merge_rules [] = []
  merge_rules (entry ∷ rules) =
      absorb_repeats (sort_by not_later_signal entry.1) [] ++ merge_rules rules

  unfoldable pub merge_sources : Dict String (List Signal) → List Signal
  unfolding group_signals merge_rules
  merge_sources [] = []
  merge_sources (entry ∷ sources) =
      merge_rules (group_signals (λ (s : Signal). s.rule_id) entry.1 []) ++ merge_sources sources

  unfoldable pub deduplicate_signals : List Signal → List Signal
  unfolding merge_sources
  deduplicate_signals signals =
      merge_sources (group_signals (λ (s : Signal). s.primary_entity) signals [])
