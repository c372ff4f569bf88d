-- ===== src/Detection/Engine.antt =====
-- `DetectionEngine.analyze` of agent/detection/engine.py, up to the rule loop. The rules' own code enters
-- as a function of the events that a rule sees (`none` is an exception). Warnings, log lines and the
-- duration are left out.
use Prim.Native.Nat.{compare}
use agentic_soc_triage_assis.Detection.Contracts.{
  RuleMetadata, validate_signal_contract, select_rule_events, check_identity, check_contents,
}
use agentic_soc_triage_assis.Prelude.{
  ℕ, List, String, Option, sort_by, [], none, some, false, ◌∷◌, ◌++◌, ◌+◌, ◌&&◌, ◌||◌, ◌==◌,
  if◌then◌else◌, contains, Bool, map, not, not_after, is_empty, text_equality, then_by,
  compare_text, filter, is_none, length, ◌<>◌,
}
use agentic_soc_triage_assis.Detection.Model.{Event, TextMethods, Signal, Timestamp}

pub record Rule : Type 0 where
  pub metadata : RuleMetadata
  pub evaluate : List Event → Option (List Signal)

-- The counters of `DetectionMetrics` that this part sets.
pub record Metrics : Type 0 where
  pub total_events : ℕ
  pub eligible_events : ℕ
  pub skipped_events : ℕ

-- What a loop over the events has kept, and how many it has skipped.
pub record Sifted : Type 0 where
  pub kept : List Event
  pub skipped : ℕ

-- `e.raw_record_hash or ''`.
abbrev pub hash_text : Option String → String
hash_text none = ""
hash_text (some h) = h

abbrev pub has_zoned_time : Option Timestamp → Bool
has_zoned_time none = false
has_zoned_time (some t) = t.has_zone

-- `f"{e.event_id}|{e.raw_record_hash or ''}"`.
abbrev pub seen_key : Event → String
seen_key e = e.event_id <> "|" <> hash_text e.raw_record_hash

-- Step 1: events without an id and repeated events are skipped.
unfoldable pub deduplicate : (seen_keys : List String) → List Event → Sifted
deduplicate seen_keys [] = record { kept = []; skipped = 0 }
deduplicate seen_keys (e ∷ es) =
    let repeated = e.event_id == "" || contains (seen_key e) seen_keys in
    let rest = deduplicate (if repeated then seen_keys else seen_key e ∷ seen_keys) es in
    if repeated
    then record rest { skipped = rest.skipped + 1 }
    else record rest { kept = e ∷ rest.kept }

abbrev pub invalid_statuses : List String
invalid_statuses = "failed" ∷ "unsupported_schema" ∷ "semantically_invalid" ∷ []

-- Step 2: `false` on each of the three `continue`s.
unfoldable pub is_eligible : Event → Bool
is_eligible e = has_zoned_time e.timestamp && not (contains e.parse_status invalid_statuses)

unfoldable pub sift_eligible : List Event → Sifted
unfolding is_eligible
sift_eligible [] = record { kept = []; skipped = 0 }
sift_eligible (e ∷ es) =
    let rest = sift_eligible es in
    if is_eligible e
    then record rest { kept = e ∷ rest.kept }
    else record rest { skipped = rest.skipped + 1 }

abbrev pub micros_of : Event → ℕ
micros_of e = elim e.timestamp [ none ↦ 0 | some t ↦ t.micros ]

abbrev pub not_later : Event → Event → Bool
not_later a b =
    not_after (then_by (compare (micros_of a) (micros_of b)) (compare_text a.event_id b.event_id))

-- The events that the rules see, in order, and the counters.
unfoldable pub prepare : List Event → List Event × Metrics
unfolding deduplicate sift_eligible sort_by
prepare candidate_events =
    let deduped = deduplicate [] candidate_events in
    let eligible = sift_eligible deduped.kept in
    (
      sort_by not_later eligible.kept,
      record {
        total_events = length candidate_events;
        eligible_events = length eligible.kept;
        skipped_events = deduped.skipped + eligible.skipped;
      },
    )

abbrev pub event_ids_of : List Event → List String
event_ids_of events = map (λ (e : Event). e.event_id) events

abbrev pub signals_or_none : Option (List Signal) → List Signal
signals_or_none none = []
signals_or_none (some signals) = signals

module _ (text : TextMethods) where
  -- The loop over the signals of one rule: a signal that breaks the contract is dropped.
  unfoldable pub accept_signals : RuleMetadata → List String → List Signal → List Signal
  unfolding validate_signal_contract check_identity check_contents
  accept_signals metadata input_ids signals =
      filter (λ s. is_none (validate_signal_contract text s metadata input_ids)) signals

  unfoldable pub run_rule : List Event → Rule → List Signal
  unfolding select_rule_events accept_signals
  run_rule eligible rule =
      let events = select_rule_events eligible rule.metadata in
      if is_empty events
      then []
      else accept_signals rule.metadata (event_ids_of events)
          (signals_or_none (rule.evaluate events))

  unfoldable pub run_rules : List Event → List Rule → List Signal
  unfolding run_rule
  run_rules eligible [] = []
  run_rules eligible (rule ∷ rules) = run_rule eligible rule ++ run_rules eligible rules
