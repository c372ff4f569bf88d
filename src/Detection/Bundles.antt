-- ===== src/Detection/Bundles.antt =====
-- `IncidentBundle` of agent/detection/models.py, and what the two merges of incidents share: unions of
-- sorted id lists and the window and event tests of agent/detection/incident_correlation.py.
use agentic_soc_triage_assis.Prelude.{
  String, List, Bool, true, false, ◌≡◌, ◌++◌, ◌*◌, ◌&&◌, ◌||◌, ◌==◌, if◌then◌else◌, ◌∙◌, not_after,
  sort_by, filter, leb, is_empty, to_set, contains, compare_text, not, is_subset, then_by,
  contains-sort_by, contains-append, text_equality, ℕ, length, contains-to_set, Dict, Option, map,
  ap, [], refl, ◌∷◌, sym, intersects, All, sort_by-All, to_set-All,
}
use agentic_soc_triage_assis.Detection.Model.{Severity, Evidence}
use agentic_soc_triage_assis.Detection.Rating.{Confidence}
use Prim.Native.Nat.{compare}
use agentic_soc_triage_assis.Detection.Scoring.{Metric}

pub record IncidentBundle : Type 0 where
  pub incident_id : String
  pub incident_type : String
  pub incident_family : String
  pub title : String
  pub severity : Severity
  pub confidence : Confidence
  pub first_seen : ℕ
  pub last_seen : ℕ
  pub primary_entity : String
  pub target_entities : List String
  pub signal_ids : List String
  pub event_ids : List String
  pub context_event_ids : List String
  pub evidence : List Evidence
  pub metrics : Dict String Metric
  pub mitre_techniques : List String
  pub merge_key : String
  pub review_reason : Option String
  pub absorbed_signal_ids : List String

abbrev pub text_not_after : String → String → Bool
text_not_after s t = not_after (compare_text s t)

-- `sorted(set(xs))`.
unfoldable pub sorted_set : List String → List String
sorted_set xs = sort_by text_not_after (to_set xs)

-- `sorted(set(xs) | set(ys))`.
unfoldable pub sorted_union : (xs ys : List String) → List String
unfolding sorted_set
sorted_union xs ys = sorted_set (xs ++ ys)

-- `sorted((set(xs) | set(ys)) - set(zs))`.
unfoldable pub sorted_union_without : (xs ys zs : List String) → List String
unfolding sorted_set
sorted_union_without xs ys zs = sorted_set (filter (λ x. not (contains x zs)) (xs ++ ys))

unfoldable pub incident_windows_overlap_or_touch : (left right : IncidentBundle) → Bool
incident_windows_overlap_or_touch left right =
    leb left.first_seen right.last_seen && leb right.first_seen left.last_seen

-- At least half of the union is in both sets.
unfoldable pub event_sets_overlap : (left_ids right_ids : List String) → Bool
event_sets_overlap left_ids right_ids =
    if is_empty left_ids || is_empty right_ids
    then false
    else if is_subset left_ids right_ids || is_subset right_ids left_ids
    then true
    else leb (length (to_set (left_ids ++ right_ids)))
        (2 * length (filter (λ x. contains x right_ids) left_ids))

unfoldable pub incident_event_sets_overlap : (left right : IncidentBundle) → Bool
unfolding event_sets_overlap
incident_event_sets_overlap left right =
    event_sets_overlap (to_set left.event_ids) (to_set right.event_ids)

unfoldable pub overlapping_incidents_are_mergeable : (left right : IncidentBundle) → Bool
unfolding incident_windows_overlap_or_touch incident_event_sets_overlap
overlapping_incidents_are_mergeable left right =
    (left.incident_type == right.incident_type)
    && ((left.primary_entity == right.primary_entity)
        && (incident_windows_overlap_or_touch left right && incident_event_sets_overlap left right))

-- `(-len(event_ids), first_seen, incident_id)`, as `<=`.
unfoldable pub keeper_not_after : (a b : IncidentBundle) → Bool
keeper_not_after a b = not_after (
    then_by (compare (length b.event_ids) (length a.event_ids))
      (then_by (compare a.first_seen b.first_seen) (compare_text a.incident_id b.incident_id)))

-- The validators of `IncidentBundle`.
unfoldable pub is_valid_bundle : IncidentBundle → Bool
is_valid_bundle incident =
    not (incident.incident_id == "")
    && (leb incident.confidence.total (incident.confidence.count * 1_000_000)
        && (leb incident.first_seen incident.last_seen
            && not (intersects incident.event_ids incident.context_event_ids)))

map_same : (xs : List String) → map (λ x. x) xs ≡ xs
map_same [] = refl
map_same (x ∷ xs) = ap (◌∷◌ x) (map_same xs)

pub contains-sorted_set :
    (x : String) (xs : List String) → contains x (sorted_set xs) ≡ contains x xs
unfolding sorted_set
contains-sorted_set x xs =
    ap (contains x) (sym (map_same (sort_by text_not_after (to_set xs))))
    ∙ contains-sort_by (λ y. y) text_not_after x (to_set xs)
    ∙ ap (contains x) (map_same (to_set xs))
    ∙ contains-to_set x xs

pub contains-sorted_union :
    (x : String) (xs ys : List String)
    → contains x (sorted_union xs ys) ≡ (contains x xs || contains x ys)
unfolding sorted_union
contains-sorted_union x xs ys = contains-sorted_set x (xs ++ ys) ∙ contains-append x xs ys

pub sorted_set-All {κ} : (P : String → Type κ) (xs : List String) → All P xs → All P (sorted_set xs)
unfolding sorted_set
sorted_set-All P xs h = sort_by-All text_not_after P (to_set xs) (to_set-All P xs h)
