-- ===== src/Detection/Grounding.antt =====
-- What the contract check gives: a signal that is kept stands on events that its rule was shown.
use agentic_soc_triage_assis.Prelude.{
  List, Bool, Option, none, some, true, false, refl, ◌≡◌, ◌≤◌, ◌==◌, String, is_empty, arith,
  is_subset, all, contains, is_distinct, map, text_equality, [], inl, inr, ◌∷◌, All, filter,
  Option-cases, if_ind, All-append, Bool-cases, eq_of_beq, All-weaken, ◌⊎◌, any,
}
use agentic_soc_triage_assis.Detection.Model.{TextMethods, Signal, Evidence, Event}
use agentic_soc_triage_assis.Detection.Contracts.{
  ContractError, check_contents, validate_signal_contract, require, ◌and_then◌, RuleMetadata,
  check_identity, rule_version_mismatch, signal_family_mismatch, select_rule_events, is_variant,
}
use agentic_soc_triage_assis.Detection.Engine.{
  accept_signals, run_rule, run_rules, event_ids_of, Rule,
}

-- The contract, as a record of facts.
pub record IsGrounded (input_ids : List String) (s : Signal) : Type 0 where
  pub cites_events : is_empty s.event_ids ≡ false
  pub cites_input : is_subset s.event_ids input_ids ≡ true
  pub evidence_cited : all (λ (e : Evidence). contains e.event_id s.event_ids) s.evidence ≡ true
  pub time_ordered : s.first_seen ≤ s.last_seen
  pub events_distinct : is_distinct s.event_ids ≡ true
  pub evidence_distinct : is_distinct (map (λ (e : Evidence). e.event_id) s.evidence) ≡ true
  pub targets_distinct : is_distinct s.target_entities ≡ true

-- What the contract says of the signal beside its rule's metadata.
pub record IsDeclared (text : TextMethods) (m : RuleMetadata) (s : Signal) : Type 0 where
  pub same_version : s.rule_version ≡ m.version
  pub same_family : s.signal_family ≡ m.family
  pub identified :
      ((is_empty m.signal_variants ≡ true)
        × (s.rule_id ≡ m.rule_id)
        × (s.rule_name ≡ m.name)
        × (s.signal_type ≡ m.signal_type))
      ⊎ (any (is_variant s) m.signal_variants ≡ true)
  pub names_entity : (text.strip s.primary_entity == "") ≡ false
  pub techniques_distinct : is_distinct s.mitre_techniques ≡ true
  pub tags_distinct : is_distinct s.tags ≡ true

require-none :
    (b : Bool) (x : ContractError) (next : Option ContractError)
    → (require b x and_then next) ≡ none
    → (b ≡ true) × (next ≡ none)
require-none true x next h = (refl, h)
require-none false x next h = cc

and_then-none : (a b : Option ContractError) → (a and_then b) ≡ none → (a ≡ none) × (b ≡ none)
and_then-none none b h = (refl, h)
and_then-none (some x) b h = cc

module _ (text : TextMethods) where
  check_contents-IsGrounded :
      (s : Signal) (ids : List String) → check_contents text s ids ≡ none → IsGrounded ids s
  unfolding check_contents
  check_contents-IsGrounded s ids h = ground arith

  check_identity-none :
      (s : Signal) (m : RuleMetadata)
      → check_identity s m ≡ none
      → ((is_empty m.signal_variants ≡ true)
          × (s.rule_id ≡ m.rule_id)
          × (s.rule_name ≡ m.name)
          × (s.signal_type ≡ m.signal_type))
        ⊎ (any (is_variant s) m.signal_variants ≡ true)
  unfolding check_identity
  check_identity-none s m h = elim (Bool-cases (is_empty m.signal_variants)) [
    | inl plain ↦ inl (
      plain,
      eq_of_beq s.rule_id m.rule_id (ground (arith, plain)),
      eq_of_beq s.rule_name m.name (ground (arith, plain)),
      eq_of_beq s.signal_type m.signal_type (ground (arith, plain)),
    )
    | inr variants ↦ inr (ground (arith, variants))
  ]

  check_contents-declared :
      (s : Signal) (ids : List String)
      → check_contents text s ids ≡ none
      → ((text.strip s.primary_entity == "") ≡ false)
        × (is_distinct s.mitre_techniques ≡ true)
        × (is_distinct s.tags ≡ true)
  unfolding check_contents
  check_contents-declared s ids h = ground arith

  pub validate-IsDeclared :
      (s : Signal) (m : RuleMetadata) (ids : List String)
      → validate_signal_contract text s m ids ≡ none
      → IsDeclared text m s
  unfolding validate_signal_contract
  validate-IsDeclared s m ids h =
      let a = and_then-none (check_identity s m) _ h in
      let b = require-none (s.rule_version == m.version) rule_version_mismatch _ a.1 in
      let c = require-none (s.signal_family == m.family) signal_family_mismatch _ b.1 in
      let d = check_contents-declared s ids c.1 in
      record {
        same_version = eq_of_beq s.rule_version m.version b.0;
        same_family = eq_of_beq s.signal_family m.family c.0;
        identified = check_identity-none s m a.0;
        names_entity = d.0;
        techniques_distinct = d.1;
        tags_distinct = d.2;
      }

  pub validate-IsGrounded :
      (s : Signal) (m : RuleMetadata) (ids : List String)
      → validate_signal_contract text s m ids ≡ none
      → IsGrounded ids s
  unfolding validate_signal_contract
  validate-IsGrounded s m ids h =
      let a = and_then-none (check_identity s m) _ h in
      let b = require-none (s.rule_version == m.version) rule_version_mismatch _ a.1 in
      let c = require-none (s.signal_family == m.family) signal_family_mismatch _ b.1 in
      check_contents-IsGrounded s ids c.1

contains-filter :
    (id : String) (p : Event → Bool) (es : List Event)
    → contains id (event_ids_of (filter p es)) ≡ true
    → contains id (event_ids_of es) ≡ true
contains-filter id p [] h = cc
contains-filter id p (e ∷ es) h = elim (Bool-cases (p e)) [
  | inl keep ↦ ground (arith, contains-filter id p es)
  | inr drop ↦ ground (arith, contains-filter id p es)
]

subset-filter :
    (ids : List String) (p : Event → Bool) (es : List Event)
    → is_subset ids (event_ids_of (filter p es)) ≡ true
    → is_subset ids (event_ids_of es) ≡ true
subset-filter [] p es h = refl
subset-filter (id ∷ ids) p es h = ground (arith, contains-filter id p es, subset-filter ids p es)

IsGrounded-filter :
    (p : Event → Bool) (es : List Event) (s : Signal)
    → IsGrounded (event_ids_of (filter p es)) s
    → IsGrounded (event_ids_of es) s
IsGrounded-filter p es s h = record {
  cites_events = h.cites_events;
  cites_input = subset-filter s.event_ids p es h.cites_input;
  evidence_cited = h.evidence_cited;
  time_ordered = h.time_ordered;
  events_distinct = h.events_distinct;
  evidence_distinct = h.evidence_distinct;
  targets_distinct = h.targets_distinct;
}

module _ (text : TextMethods) where
  -- The signal keeps the contract of the rule, on the events that the rule was shown.
  abbrev pub KeepsContract : List Event → Rule → Signal → Type 0
  KeepsContract es rule s =
      IsGrounded (event_ids_of (select_rule_events es rule.metadata)) s
      × IsDeclared text rule.metadata s

  -- It keeps the contract of one of the rules.
  pub data KeepsOne (es : List Event) (s : Signal) : List Rule → Type 0 where
    first_rule :
        {rule : Rule} {rules : List Rule} → KeepsContract es rule s → KeepsOne es s (rule ∷ rules)
    later_rule :
        {rule : Rule} {rules : List Rule} → KeepsOne es s rules → KeepsOne es s (rule ∷ rules)

  accept_signals-IsGrounded :
      (m : RuleMetadata) (ids : List String) (ss : List Signal)
      → All (λ s. IsGrounded ids s × IsDeclared text m s) (accept_signals text m ids ss)
  unfolding accept_signals
  accept_signals-IsGrounded m ids [] = tt
  accept_signals-IsGrounded m ids (s ∷ ss) =
      elim (Option-cases (validate_signal_contract text s m ids)) [
        | inl valid ↦ rw valid (
          (validate-IsGrounded text s m ids valid, validate-IsDeclared text s m ids valid),
          accept_signals-IsGrounded m ids ss,
        )
        | inr (x, broken) ↦ rw broken (accept_signals-IsGrounded m ids ss)
      ]

  run_rule-KeepsContract :
      (es : List Event) (rule : Rule) → All (KeepsContract es rule) (run_rule text es rule)
  unfolding run_rule
  run_rule-KeepsContract es rule =
      if_ind (All (KeepsContract es rule)) (is_empty (select_rule_events es rule.metadata))
        (λ _. tt) (λ _. accept_signals-IsGrounded rule.metadata _ _)

  run_rules-KeepsOne :
      (es : List Event) (rules : List Rule)
      → All (λ s. KeepsOne es s rules) (run_rules text es rules)
  unfolding run_rules
  run_rules-KeepsOne es [] = tt
  run_rules-KeepsOne es (rule ∷ rules) =
      All-append _ (run_rule text es rule) (run_rules text es rules)
        (All-weaken (run_rule text es rule) (λ s kept. first_rule kept)
          (run_rule-KeepsContract es rule))
        (All-weaken (run_rules text es rules) (λ s kept. later_rule kept)
          (run_rules-KeepsOne es rules))

  KeepsOne-IsGrounded :
      (es : List Event) (s : Signal) (rules : List Rule)
      → KeepsOne es s rules
      → IsGrounded (event_ids_of es) s
  unfolding select_rule_events
  KeepsOne-IsGrounded es s [] kept = elim kept [ ]
  KeepsOne-IsGrounded es s (rule ∷ rules) (first_rule kept) = IsGrounded-filter _ es s kept.0
  KeepsOne-IsGrounded es s (rule ∷ rules) (later_rule kept) = KeepsOne-IsGrounded es s rules kept

  -- Whatever the rules' own code returns, every signal that leaves the engine cites at least one event,
  -- cites only events that the engine was given, carries evidence only for those that it cites, and has
  -- its times in order and its ids without repetition. It keeps the contract of one of the rules: it
  -- cites only events that this rule was shown, has the rule's version and family and its identity or
  -- one of its variants, names an entity, and repeats no technique and no tag.
  pub run_rules-IsGrounded :
      (es : List Event) (rules : List Rule)
      → All (λ s. IsGrounded (event_ids_of es) s × KeepsOne es s rules) (run_rules text es rules)
  run_rules-IsGrounded es rules =
      All-weaken (run_rules text es rules) (λ s kept. (KeepsOne-IsGrounded es s rules kept, kept))
        (run_rules-KeepsOne es rules)
