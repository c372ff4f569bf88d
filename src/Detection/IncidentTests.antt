-- ===== src/Detection/IncidentTests.antt =====
-- Concrete signals, incidents and policies: the theorems on them, and tests of the definitions.
use mathlib.Core.List.{Perm}
use agentic_soc_triage_assis.Prelude.{
  ℕ, List, Option, intersects, String, [], none, some, true, refl, ◌≡◌, ◌∷◌, ◌+◌, ◌==◌,
  if◌then◌else◌, ◌⊎◌, Bool, text_equality, map, is_subset, length, All, sort_by, insert_sorted,
  filter, is_none,
}
use agentic_soc_triage_assis.Detection.Clusters.{
  Ratio, cluster_signals, signals_may_correlate, absorb, same_primary_entity, place,
  time_windows_are_compatible, eligible_anchors, has_shared_event_evidence, event_overlap_ratio,
  distinct, collect, get_members, append_member, set_members, best_anchor,
  cross_primary_exposure_correlation_allowed,
}
use agentic_soc_triage_assis.Detection.Attaching.{
  IsAttached, IsContext, collect_evidence-IsAttached, select_context_event_ids-IsContext,
}
use agentic_soc_triage_assis.Detection.Attached.{
  ContextScope, collect_evidence, select_context_event_ids,
}
use agentic_soc_triage_assis.Detection.Suppression.{
  SuppressionPolicy, is_suppressed, suppress_signals, new_policy, is_late_rst_spi_pattern,
}
use agentic_soc_triage_assis.Detection.Model.{Signal}
use agentic_soc_triage_assis.Detection.Samples.{sample_event, signal_on, plain_text, reply_event}
use agentic_soc_triage_assis.Detection.Partition.{
  all_members, IsAnchored, cluster_signals-partition,
}
use agentic_soc_triage_assis.Detection.Groups.{ids_of}
use agentic_soc_triage_assis.Detection.Sharing.{signals_may_correlate-shares}
use agentic_soc_triage_assis.Detection.Silence.{marked, reason_for, suppress_signals-partition}
use agentic_soc_triage_assis.Detection.Precedence.{
  compare_precedence, precedence_level, level_from, place_in, takes_precedence,
}

abbrev window : ℕ
window = 300

abbrev half : Ratio
half = record { part = 1; whole = 2 }

-- Two signals on the same events, and one on another.
abbrev signals : List Signal
signals =
    record (signal_on ("e1" ∷ "e3" ∷ [])) { signal_id = "s2"; signal_type = "horizontal_scan" }
    ∷ record (signal_on ("e7" ∷ [])) { signal_id = "s3"; signal_type = "vertical_scan" }
    ∷ record (signal_on ("e1" ∷ "e3" ∷ [])) { signal_id = "s1"; signal_type = "rdp_probe" }
    ∷ []

cluster_signals-partition_example :
    (clusters : List (List Signal)) × (cluster_signals window half signals ≡ some clusters)
    × Perm (all_members clusters) signals
    × All (IsAnchored window half) clusters
cluster_signals-partition_example = cluster_signals-partition window half signals refl

collect_evidence-IsAttached_example : IsAttached ("e1" ∷ []) (
    collect_evidence
      (record (signal_on ("e1" ∷ [])) {
        evidence = record { event_id = "e1"; quote = "q"; reason = "r"; source = "log" } ∷ [];
      }
        ∷ [])
      ("e1" ∷ []))
collect_evidence-IsAttached_example =
    collect_evidence-IsAttached
      (record (signal_on ("e1" ∷ [])) {
        evidence = record { event_id = "e1"; quote = "q"; reason = "r"; source = "log" } ∷ [];
      }
        ∷ [])
      ("e1" ∷ [])

abbrev scope : ContextScope
scope = record {
  incident_event_ids = "e1" ∷ [];
  incident_events = sample_event "e1" 10 ∷ [];
  first_seen = 10;
  last_seen = 10;
  merge_window_seconds = 60;
  max_context_events = 5;
}

select_context_event_ids-IsContext_example :
    IsContext scope (select_context_event_ids plain_text scope (reply_event ∷ reply_event ∷ []))
select_context_event_ids-IsContext_example =
    select_context_event_ids-IsContext plain_text scope (reply_event ∷ reply_event ∷ [])

abbrev names_of : Option (List (List Signal)) → List (List String)
names_of none = []
names_of (some clusters) = map ids_of clusters

cluster_signals_test :
    names_of (cluster_signals window half signals) ≡ ("s1" ∷ "s2" ∷ []) ∷ ("s3" ∷ []) ∷ []
unfolding cluster_signals absorb place eligible_anchors signals_may_correlate same_primary_entity
    time_windows_are_compatible has_shared_event_evidence event_overlap_ratio distinct collect
    get_members append_member set_members best_anchor compare_precedence precedence_level level_from
    place_in takes_precedence sort_by insert_sorted cross_primary_exposure_correlation_allowed
cluster_signals_test = refl

correlated_test :
    signals_may_correlate window half (signal_on ("e1" ∷ "e3" ∷ [])) (signal_on ("e3" ∷ [])) ≡ true
unfolding signals_may_correlate same_primary_entity time_windows_are_compatible
    has_shared_event_evidence event_overlap_ratio distinct
correlated_test = refl

signals_may_correlate-shares_example :
    (intersects {A = String} ("e1" ∷ "e3" ∷ []) ("e3" ∷ []) ≡ true)
    × (((signal_on []).primary_entity ≡ (signal_on []).primary_entity)
        ⊎ ((is_subset {A = String} ("e1" ∷ "e3" ∷ []) ("e3" ∷ []) ≡ true)
            × (is_subset {A = String} ("e3" ∷ []) ("e1" ∷ "e3" ∷ []) ≡ true)))
signals_may_correlate-shares_example =
    signals_may_correlate-shares window half (signal_on ("e1" ∷ "e3" ∷ [])) (signal_on ("e3" ∷ []))
      correlated_test

-- Addresses are their texts, and a network is one address.
abbrev read_address : String → Option String
read_address s = if s == "host" then none else some s

abbrev in_same : String → String → Option Bool
in_same address network = if network == "bad" then none else some (address == network)

abbrev policy : SuppressionPolicy
policy = record new_policy { allowed_sources = "bad" ∷ "203.0.113.7" ∷ [] }

suppress_signals-partition_example :
    let done = suppress_signals plain_text read_address in_same policy (λ id. none) signals in
    let reason_of = reason_for plain_text read_address in_same policy (λ id. none) in
    (done.active_signals ≡ filter (λ s. is_none (reason_of s)) signals)
    × (done.suppressed_signals ≡ marked plain_text read_address in_same reason_of signals)
    × (length done.active_signals + length done.suppressed_signals ≡ 3)
suppress_signals-partition_example =
    suppress_signals-partition plain_text read_address in_same policy (λ id. none) signals

suppress_signals_test :
    length
      (suppress_signals plain_text read_address in_same policy
        (λ id. none)
        signals).suppressed_signals
    ≡ 3
unfolding suppress_signals is_suppressed is_late_rst_spi_pattern
suppress_signals_test = refl
