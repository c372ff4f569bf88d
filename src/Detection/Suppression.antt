-- ===== src/Detection/Suppression.antt =====
-- agent/detection/suppression.py, and step 3 of `DetectionEngine.analyze` in agent/detection/engine.py.
-- The module `ipaddress` is a parameter: `none` is a ValueError.
use agentic_soc_triage_assis.Prelude.{
  [], none, some, true, false, ◌∷◌, ◌++◌, ◌&&◌, ◌||◌, ◌==◌, if◌then◌else◌, List, ℕ, String, Option,
  contains, Bool, all, leb, is_subset, not, any, text_equality, number_equality, length, is_empty,
  is_distinct, ◌<>◌,
}
use agentic_soc_triage_assis.Detection.Model.{TextMethods, Event, Signal}
use agentic_soc_triage_assis.Detection.Related.{present_port, present_text}
use agentic_soc_triage_assis.Detection.EventFacts.{is_blocked}
use agentic_soc_triage_assis.Detection.TcpFlags.{parse_tcp_flag_tokens}
use agentic_soc_triage_assis.Detection.Clusters.{distinct}

abbrev pub late_rst_service_source_ports : List ℕ
late_rst_service_source_ports = 22 ∷ 53 ∷ 80 ∷ 443 ∷ 993 ∷ 995 ∷ []

abbrev pub late_rst_min_ephemeral_port : ℕ
late_rst_min_ephemeral_port = 32_768

abbrev pub late_rst_min_events : ℕ
late_rst_min_events = 2

abbrev pub late_rst_suppression_reason : String
late_rst_suppression_reason = "late_rst_from_established_service"

pub record SuppressionPolicy : Type 0 where
  pub allowed_sources : List String
  pub allowed_destinations : List String
  pub allowed_rules : List String
  pub allowed_ip_pairs : List (String × String)

abbrev pub new_policy : SuppressionPolicy
new_policy = record {
  allowed_sources = [];
  allowed_destinations = [];
  allowed_rules = [];
  allowed_ip_pairs = [];
}

abbrev pub everywhere : List String
everywhere = "0.0.0.0/0" ∷ "::/0" ∷ []

unfoldable pub add_allowed_source : (cidr : String) → SuppressionPolicy → SuppressionPolicy
add_allowed_source cidr policy =
    if contains cidr everywhere
    then policy
    else record policy { allowed_sources = policy.allowed_sources ++ (cidr ∷ []) }

unfoldable pub add_allowed_destination : (cidr : String) → SuppressionPolicy → SuppressionPolicy
add_allowed_destination cidr policy =
    if contains cidr everywhere
    then policy
    else record policy { allowed_destinations = policy.allowed_destinations ++ (cidr ∷ []) }

-- `event_lookup.get(event_id)` for each id, or `none` when one is missing.
abbrev pub add_found : Option Event → Option (List Event) → Option (List Event)
add_found none events = none
add_found (some e) none = none
add_found (some e) (some events) = some (e ∷ events)

unfoldable pub find_events :
    (event_lookup : String → Option Event) → List String → Option (List Event)
find_events event_lookup [] = some []
find_events event_lookup (id ∷ ids) = add_found (event_lookup id) (find_events event_lookup ids)

abbrev pub is_port : ℕ → Option ℕ → Bool
is_port p none = false
is_port p (some q) = p == q

abbrev pub is_service_port : Option ℕ → Bool
is_service_port none = false
is_service_port (some p) = contains p late_rst_service_source_ports

abbrev pub same_port : Option ℕ → Option ℕ → Bool
same_port none none = true
same_port none (some q) = false
same_port (some p) port = is_port p port

-- One source port, and a service's.
unfoldable pub has_service_source : List Event → Bool
has_service_source [] = false
has_service_source (e ∷ events) =
    is_service_port e.src_port && all (λ (f : Event). same_port e.src_port f.src_port) events

abbrev pub is_ephemeral : Option ℕ → Bool
is_ephemeral none = false
is_ephemeral (some p) = leb late_rst_min_ephemeral_port p

abbrev pub dst_ports_of : List Event → List ℕ
dst_ports_of [] = []
dst_ports_of (e ∷ events) = present_port e.dst_port ++ dst_ports_of events

abbrev pub dst_ips_of : List Event → List String
dst_ips_of [] = []
dst_ips_of (e ∷ events) = present_text e.dst_ip ++ dst_ips_of events

abbrev pub reset_only : List String
reset_only = "RST" ∷ []

abbrev pub reset_and_ack : List String
reset_and_ack = "RST" ∷ "ACK" ∷ []

abbrev pub same_set : List String → List String → Bool
same_set xs ys = is_subset xs ys && is_subset ys xs

-- What a step over the signals leaves.
pub record Suppressed : Type 0 where
  pub active_signals : List Signal
  pub suppressed_signals : List Signal

module _ (text : TextMethods) where
  abbrev pub folded : Option String → String
  folded none = text.casefold (text.strip "")
  folded (some s) = text.casefold (text.strip s)

  unfoldable pub is_explicit_spi_block : Event → Bool
  is_explicit_spi_block event =
      let canonical_action = folded event.action in
      let explicit_spi =
        event.spi_anomaly
        || (text.casefold (text.strip event.original_device_action) == "blocked by spi"
            || canonical_action == "blocked by spi") in
      explicit_spi && (is_blocked text event || canonical_action == "blocked by spi")

  abbrev pub is_reset : Event → Bool
  is_reset event =
      let tokens = parse_tcp_flag_tokens text event.tcp_flags in
      same_set tokens reset_only || same_set tokens reset_and_ack

  -- The tests on the events of the signal, once all are found.
  unfoldable pub is_late_rst_flow : List Event → Bool
  is_late_rst_flow events =
      leb late_rst_min_events (length events)
      && (all is_explicit_spi_block events
          && (has_service_source events
              && (all (λ (e : Event). is_ephemeral e.dst_port) events
                  && (is_distinct (dst_ports_of events)
                      && (length (distinct (dst_ips_of events)) == 1 && all is_reset events)))))

  abbrev pub is_late_rst_events : Option (List Event) → Bool
  is_late_rst_events none = false
  is_late_rst_events (some events) = is_late_rst_flow events

  unfoldable pub is_late_rst_spi_pattern : Signal → (event_lookup : String → Option Event) → Bool
  is_late_rst_spi_pattern signal event_lookup =
      signal.signal_type == "spi_anomaly"
      && signal.rule_id == "spi_anomaly_burst"
      && (not (is_empty signal.event_ids)
          && is_late_rst_events (find_events event_lookup signal.event_ids))

  module _ {Address : Type 0} (ip_address : String → Option Address)
      (in_network : Address → String → Option Bool) where
    -- An entry that is no network is skipped.
    abbrev pub is_in : Option Bool → Bool
    is_in none = false
    is_in (some b) = b

    abbrev pub is_in_any : Option Address → List String → Bool
    is_in_any none networks = false
    is_in_any (some a) networks = any (λ network. is_in (in_network a network)) networks

    abbrev pub is_pair : Option Address → Option Address → String × String → Bool
    is_pair none dst pair = false
    is_pair (some a) none pair = false
    is_pair (some a) (some b) pair = is_in (in_network a pair.0) && is_in (in_network b pair.1)

    abbrev pub source_of : Signal → Option Address
    source_of signal =
        if signal.primary_entity == "" then none else ip_address signal.primary_entity

    -- The loop over the targets.
    unfoldable pub suppress_by_target :
        SuppressionPolicy → Signal → (targets : List String) → Option String
    suppress_by_target policy signal [] = none
    suppress_by_target policy signal (target ∷ targets) =
        let rest = suppress_by_target policy signal targets in
        if is_in_any (ip_address target) policy.allowed_destinations
        then some ("Destination " <> target <> " is in allowed destinations")
        else if any (is_pair (source_of signal) (ip_address target)) policy.allowed_ip_pairs
        then some ("IP pair " <> signal.primary_entity <> " -> " <> target <> " is allowed")
        else rest

    unfoldable pub is_suppressed :
        SuppressionPolicy → Signal → (event_lookup : String → Option Event) → Option String
    is_suppressed policy signal event_lookup =
        if is_late_rst_spi_pattern signal event_lookup
        then some late_rst_suppression_reason
        else if contains signal.rule_id policy.allowed_rules
        then some ("Rule " <> signal.rule_id <> " is globally allowed")
        else if is_in_any (source_of signal) policy.allowed_sources
        then some ("Source " <> signal.primary_entity <> " is in allowed sources")
        else suppress_by_target policy signal signal.target_entities

    -- Step 3 of the engine; `reason` is never empty.
    abbrev pub sort_signal : Signal → Option String → Suppressed → Suppressed
    sort_signal signal none rest = record rest { active_signals = signal ∷ rest.active_signals }
    sort_signal signal (some reason) rest = record rest {
      suppressed_signals =
          record signal { suppressed = true; suppression_reason = some reason }
          ∷ rest.suppressed_signals;
    }

    unfoldable pub suppress_signals :
        SuppressionPolicy → (event_lookup : String → Option Event) → List Signal → Suppressed
    suppress_signals policy event_lookup [] = record {
      active_signals = [];
      suppressed_signals = [];
    }
    suppress_signals policy event_lookup (signal ∷ signals) =
        sort_signal signal (is_suppressed policy signal event_lookup)
          (suppress_signals policy event_lookup signals)
