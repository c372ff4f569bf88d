-- ===== src/Detection/Clusters.antt =====
-- `cluster_signals` of agent/detection/incident_correlation.py and the tests that it makes.
-- A ratio is a pair of numbers and is compared as a fraction, where the source divides floats. A
-- missing key of the dictionary of members (KeyError) is `none`.
use Prim.Native.Nat.{compare, Ordering}
use agentic_soc_triage_assis.Prelude.{
  ℕ, Bool, List, String, Option, ◌*◌, [], none, some, true, false, ◌∷◌, ◌++◌, ◌-◌, ◌&&◌, ◌||◌, ◌==◌,
  if◌then◌else◌, leb, contains, is_empty, intersects, not, then_by, is_before, filter, sort_by,
  length, max, is_subset, reversed, min, compare_text, text_equality,
}
use agentic_soc_triage_assis.Detection.Model.{Signal}
use agentic_soc_triage_assis.Detection.Precedence.{takes_precedence, compare_precedence}

pub record Ratio : Type 0 where
  pub part : ℕ
  pub whole : ℕ

abbrev pub at_least : Ratio → Ratio → Bool
at_least a b = leb (b.part * a.whole) (a.part * b.whole)

abbrev pub compare_ratio : Ratio → Ratio → Ordering
compare_ratio a b = compare (a.part * b.whole) (b.part * a.whole)

-- `set(ids)`.
unfoldable pub distinct : List String → List String
distinct [] = []
distinct (id ∷ ids) = let rest = distinct ids in if contains id ids then rest else id ∷ rest

unfoldable pub event_overlap_ratio : Signal → Signal → Ratio
event_overlap_ratio left right =
    let left_ids = distinct left.event_ids in
    let right_ids = distinct right.event_ids in
    if is_empty left_ids || is_empty right_ids then record { part = 0; whole = 1 } else record {
      part = length (filter (λ id. contains id right_ids) left_ids);
      whole = min (length left_ids) (length right_ids);
    }

abbrev pub micros_per_second : ℕ
micros_per_second = 1_000_000

-- Where the windows do not overlap one of the two gaps is positive, and the other counts as 0.
unfoldable pub time_windows_are_compatible : Signal → Signal → (window_seconds : ℕ) → Bool
time_windows_are_compatible left right window_seconds =
    if leb left.first_seen right.last_seen && leb right.first_seen left.last_seen
    then true
    else leb (max (right.first_seen - left.last_seen) (left.first_seen - right.last_seen))
        (window_seconds * micros_per_second)

abbrev pub cross_primary_eligible_families : List String
cross_primary_eligible_families = "firewall_exposure" ∷ "firewall_policy" ∷ []

unfoldable pub has_shared_event_evidence : Signal → Signal → Bool
has_shared_event_evidence left right = intersects left.event_ids right.event_ids

unfoldable pub entity_scope : Signal → List String
entity_scope s =
    if s.primary_entity == "" then s.target_entities else s.primary_entity ∷ s.target_entities

unfoldable pub entity_scopes_are_compatible : Signal → Signal → Bool
entity_scopes_are_compatible left right = intersects (entity_scope left) (entity_scope right)

unfoldable pub cross_primary_exposure_correlation_allowed :
    (anchor candidate : Signal) → (window_seconds : ℕ) → Bool
cross_primary_exposure_correlation_allowed anchor candidate window_seconds =
    if not (contains anchor.signal_family cross_primary_eligible_families)
    then false
    else if not (contains candidate.signal_family cross_primary_eligible_families)
    then false
    else if is_empty anchor.event_ids || is_empty candidate.event_ids
    then false
    else if not (
        is_subset anchor.event_ids candidate.event_ids
        && is_subset candidate.event_ids anchor.event_ids)
    then false
    else if not (entity_scopes_are_compatible anchor candidate)
    then false
    else time_windows_are_compatible anchor candidate window_seconds

unfoldable pub same_primary_entity : Signal → Signal → Bool
same_primary_entity anchor candidate =
    not (anchor.primary_entity == "")
    && not (candidate.primary_entity == "")
    && anchor.primary_entity == candidate.primary_entity

-- The dictionary `members`, in the order of its keys.
abbrev pub Members : Type 0
Members = List (String × List Signal)

pub record Clusters : Type 0 where
  pub anchors : List Signal
  pub members : Members

unfoldable pub set_members : (key : String) → List Signal → Members → Members
set_members key signals [] = (key, signals) ∷ []
set_members key signals (entry ∷ entries) =
    if entry.0 == key then (key, signals) ∷ entries else entry ∷ set_members key signals entries

abbrev pub after_entry : String × List Signal → Option Members → Option Members
after_entry entry none = none
after_entry entry (some entries) = some (entry ∷ entries)

unfoldable pub append_member : (key : String) → Signal → Members → Option Members
append_member key signal [] = none
append_member key signal (entry ∷ entries) =
    if entry.0 == key
    then some ((entry.0, entry.1 ++ (signal ∷ [])) ∷ entries)
    else after_entry entry (append_member key signal entries)

unfoldable pub get_members : (key : String) → Members → Option (List Signal)
get_members key [] = none
get_members key (entry ∷ entries) = if entry.0 == key then some entry.1 else get_members key entries

abbrev pub with_members : List Signal → Option Members → Option Clusters
with_members anchors none = none
with_members anchors (some members) = some (record { anchors = anchors; members = members })

abbrev pub add_cluster :
    Option (List Signal) → Option (List (List Signal)) → Option (List (List Signal))
add_cluster none rest = none
add_cluster (some cluster) none = none
add_cluster (some cluster) (some rest) = some (cluster ∷ rest)

-- `[members[anchor.signal_id] for anchor in anchors]`.
unfoldable pub collect : List Signal → Members → Option (List (List Signal))
collect [] members = some []
collect (anchor ∷ anchors) members =
    add_cluster (get_members anchor.signal_id members) (collect anchors members)

abbrev pub collect_all : Option Clusters → Option (List (List Signal))
collect_all none = none
collect_all (some clusters) = collect clusters.anchors clusters.members

-- The comparison of two keys of `_best_anchor`.
unfoldable pub compare_anchors : (candidate : Signal) → Signal → Signal → Ordering
compare_anchors candidate a b =
    then_by
      (reversed (compare_ratio (event_overlap_ratio a candidate) (event_overlap_ratio b candidate)))
      (then_by (compare_precedence a b)
        (then_by (compare a.first_seen b.first_seen) (compare_text a.signal_id b.signal_id)))

-- The first of the smallest, from `best` on.
unfoldable pub best_anchor : (candidate best : Signal) → List Signal → Signal
best_anchor candidate best [] = best
best_anchor candidate best (anchor ∷ anchors) =
    best_anchor candidate
      (if is_before (compare_anchors candidate anchor best) then anchor else best) anchors

module _ (window_seconds : ℕ) (overlap_threshold : Ratio) where
  unfoldable pub signals_may_correlate : (anchor candidate : Signal) → Bool
  signals_may_correlate anchor candidate =
      if same_primary_entity anchor candidate
      then (if not (time_windows_are_compatible anchor candidate window_seconds)
          then false
          else if not (has_shared_event_evidence anchor candidate)
          then false
          else at_least (event_overlap_ratio anchor candidate) overlap_threshold)
      else cross_primary_exposure_correlation_allowed anchor candidate window_seconds

  unfoldable pub place :
      (candidate : Signal) → (eligible_anchors : List Signal) → Clusters → Option Clusters
  place candidate [] clusters = some (record {
    anchors = clusters.anchors ++ (candidate ∷ []);
    members = set_members candidate.signal_id (candidate ∷ []) clusters.members;
  })
  place candidate (anchor ∷ anchors) clusters =
      with_members clusters.anchors
        (append_member (best_anchor candidate anchor anchors).signal_id candidate clusters.members)

  unfoldable pub eligible_anchors : (candidate : Signal) → List Signal → List Signal
  eligible_anchors candidate anchors =
      filter (λ anchor. signals_may_correlate anchor candidate) anchors

  -- The loop over the ordered signals.
  unfoldable pub absorb : List Signal → Option Clusters → Option Clusters
  absorb [] clusters = clusters
  absorb (candidate ∷ rest) none = none
  absorb (candidate ∷ rest) (some clusters) =
      absorb rest (place candidate (eligible_anchors candidate clusters.anchors) clusters)

  unfoldable pub cluster_signals : List Signal → Option (List (List Signal))
  cluster_signals signals =
      collect_all
        (absorb (sort_by takes_precedence signals) (some (record { anchors = []; members = [] })))
