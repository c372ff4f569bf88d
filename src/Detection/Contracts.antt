-- ===== src/Detection/Contracts.antt =====
-- agent/detection/contracts.py: which events a rule sees, and what a signal must satisfy.
use agentic_soc_triage_assis.Prelude.{
  String, List, Option, Bool, [], none, some, true, false, ◌∷◌, ◌&&◌, ◌||◌, ◌==◌, if◌then◌else◌, ℕ,
  is_empty, filter, not, text_equality, contains, any, is_subset, all, leb, is_distinct, map,
}
use agentic_soc_triage_assis.Detection.Model.{Event, Signal, TextMethods, Evidence}

pub record SignalVariant : Type 0 where
  pub rule_id : String
  pub rule_name : String
  pub signal_type : String

-- The parts of `DetectionRuleMetadata` that the checks read. `required_fields` are event fields, each
-- as a test of the event: the field is there and is not blank.
pub record RuleMetadata : Type 0 where
  pub rule_id : String
  pub version : String
  pub name : String
  pub family : String
  pub priority : ℕ
  pub supported_event_types : List String
  pub required_fields : List (Event → Bool)
  pub signal_type : String
  pub signal_variants : List SignalVariant

unfoldable pub event_has_required_fields : Event → List (Event → Bool) → Bool
event_has_required_fields event [] = true
event_has_required_fields event (present ∷ fields) =
    present event && event_has_required_fields event fields

abbrev pub supports : List String → Option String → Bool
supports types none = is_empty types
supports types (some t) = is_empty types || contains t types

unfoldable pub select_rule_events : List Event → RuleMetadata → List Event
unfolding event_has_required_fields
select_rule_events events metadata =
    filter
      (λ e.
        supports metadata.supported_event_types e.event_type
        && event_has_required_fields e metadata.required_fields)
      events

-- The categories of `RuleContractError`.
pub data ContractError : Type 0 where
  undeclared_signal_variant rule_id_mismatch rule_name_mismatch signal_type_mismatch : ContractError
  rule_version_mismatch signal_family_mismatch empty_event_ids foreign_event_id : ContractError
  evidence_not_in_signal_events invalid_time_range empty_primary_entity : ContractError
  duplicate_event_ids duplicate_evidence_event_ids duplicate_target_entities : ContractError
  duplicate_mitre_techniques duplicate_tags : ContractError

-- `none`: no error so far, go on.
infixr 20 ◌and_then◌
abbrev pub ◌and_then◌ : Option ContractError → Option ContractError → Option ContractError
none and_then next = next
some error and_then next = some error

abbrev pub require : Bool → ContractError → Option ContractError
require true error = none
require false error = some error

abbrev pub is_variant : Signal → SignalVariant → Bool
is_variant signal v =
    v.rule_id == signal.rule_id
    && (v.rule_name == signal.rule_name && v.signal_type == signal.signal_type)

unfoldable pub check_identity : Signal → RuleMetadata → Option ContractError
check_identity signal metadata =
    if is_empty metadata.signal_variants
    then require (signal.rule_id == metadata.rule_id) rule_id_mismatch
      and_then require (signal.rule_name == metadata.name) rule_name_mismatch
      and_then require (signal.signal_type == metadata.signal_type) signal_type_mismatch
    else require (any (is_variant signal) metadata.signal_variants) undeclared_signal_variant

-- The severity is one of the five by its type, so `invalid_severity` cannot come up.
module _ (text : TextMethods) where
  unfoldable pub check_contents : Signal → List String → Option ContractError
  check_contents signal input_event_ids =
      require (not (is_empty signal.event_ids)) empty_event_ids
      and_then require (is_subset signal.event_ids input_event_ids) foreign_event_id
      and_then require
          (all (λ (e : Evidence). contains e.event_id signal.event_ids) signal.evidence)
          evidence_not_in_signal_events
      and_then require (leb signal.first_seen signal.last_seen) invalid_time_range
      and_then require (not (text.strip signal.primary_entity == "")) empty_primary_entity
      and_then require (is_distinct signal.event_ids) duplicate_event_ids
      and_then require (is_distinct (map (λ (e : Evidence). e.event_id) signal.evidence))
          duplicate_evidence_event_ids
      and_then require (is_distinct signal.target_entities) duplicate_target_entities
      and_then require (is_distinct signal.mitre_techniques) duplicate_mitre_techniques
      and_then require (is_distinct signal.tags) duplicate_tags

  unfoldable pub validate_signal_contract :
      Signal → RuleMetadata → (input_event_ids : List String) → Option ContractError
  validate_signal_contract signal metadata input_event_ids =
      check_identity signal metadata
      and_then require (signal.rule_version == metadata.version) rule_version_mismatch
      and_then require (signal.signal_family == metadata.family) signal_family_mismatch
      and_then check_contents signal input_event_ids
