-- ===== src/Detection/Severities.antt =====
-- What agent/detection/scoring.py promises: facts survive the way through the metrics, and the severity
-- of an incident stays on the right side of "medium".
use agentic_soc_triage_assis.Detection.Scoring.{
  asset_of, targeting_of, Numerals, from_metrics, AssetValue, Targeting, update_metrics, asset_text,
  targeting_text, metric_int, standard_asset, targeted, IncidentSeverityFacts, sensitive_asset,
  broad, critical_asset, Metric, as_metrics, found_facts, facts_by, build_facts,
}
use agentic_soc_triage_assis.Prelude.{
  fun_ext, some, refl, ◌≡◌, ℕ, Dict, String, Option, get_entry, [], inl, inr, ◌∷◌, ◌==◌,
  if◌then◌else◌, ◌∙◌, put_entry, text_equality, Bool-cases, ap, arith, get_entry-put_entry,
  eq_of_beq, get_entry-put_entry_other, Bool, ◌≤◌, true, ltb, List, leb, length, filter, any, ◌&&◌,
  ◌||◌, if_ind, nat_beq, contains, subst, sym, All,
}
use agentic_soc_triage_assis.Detection.Rating.{
  severity_by_events, asset_severity, raised_if, severity_of_value, is_targeted,
  calculate_incident_severity, derive_incident_severity_facts, recon_families, event_aware_families,
  unique_events,
}
use agentic_soc_triage_assis.Detection.Model.{severity_rank, Severity, TextMethods, Signal, Event}
use agentic_soc_triage_assis.Detection.EventFacts.{is_allowed}

asset_of-asset_text : (value : AssetValue) → asset_of (asset_text value) ≡ some value
unfolding asset_of
asset_of-asset_text standard_asset = refl
asset_of-asset_text sensitive_asset = refl
asset_of-asset_text critical_asset = refl

targeting_of-targeting_text : (value : Targeting) → targeting_of (targeting_text value) ≡ some value
unfolding targeting_of
targeting_of-targeting_text targeted = refl
targeting_of-targeting_text broad = refl

-- The value of a key after updates with some entries.
abbrev last_entry : (key : String) → Dict String Metric → Option Metric → Option Metric
last_entry key [] before = before
last_entry key (entry ∷ entries) before =
    last_entry key entries (if entry.0 == key then some entry.1 else before)

get_entry-put_entry_if :
    (key : String) (entry : String × Metric) (metrics : Dict String Metric)
    → get_entry key (put_entry entry.0 entry.1 metrics)
      ≡ (if entry.0 == key then some entry.1 else get_entry key metrics)
get_entry-put_entry_if key entry metrics = elim (Bool-cases (entry.0 == key)) [
  | inl same ↦ ground (
    arith,
    get_entry-put_entry key entry.1 metrics,
    ap (λ (k : String). get_entry key (put_entry k entry.1 metrics)) (eq_of_beq entry.0 key same),
  )
  | inr differ ↦ ground (arith, get_entry-put_entry_other entry.0 key entry.1 metrics)
]

pub get_entry-update_metrics :
    (key : String) (entries metrics : Dict String Metric)
    → get_entry key (update_metrics metrics entries)
      ≡ last_entry key entries (get_entry key metrics)
unfolding update_metrics
get_entry-update_metrics key [] metrics = refl
get_entry-update_metrics key (entry ∷ entries) metrics =
    get_entry-update_metrics key entries (put_entry entry.0 entry.1 metrics)
    ∙ ap (last_entry key entries) (get_entry-put_entry_if key entry metrics)

abbrev pub counts_of : IncidentSeverityFacts → List ℕ
counts_of facts =
    facts.total_event_count ∷ facts.allowed_event_count ∷ facts.blocked_event_count
    ∷ facts.distinct_destination_count ∷ facts.max_sensitive_ports_per_destination ∷ []

-- `int` reads back what `str` writes for the number.
abbrev pub ReadsBack : Numerals → ℕ → Type 0
ReadsBack numerals n = numerals.parse_decimal (numerals.decimal n) ≡ some n

-- Where `int` reads back what `str` writes for the counts, the facts that an incident's metrics have
-- been updated with are the facts that `from_metrics` answers, whatever the metrics held before.
pub from_metrics-as_metrics :
    (numerals : Numerals) (facts : IncidentSeverityFacts) (metrics : Dict String Metric)
    → All (ReadsBack numerals) (counts_of facts)
    → from_metrics numerals (update_metrics metrics (as_metrics facts)) ≡ found_facts facts
unfolding from_metrics facts_by build_facts metric_int
from_metrics-as_metrics numerals facts metrics reads =
    ap (facts_by numerals)
      (fun_ext (λ key. get_entry-update_metrics key (as_metrics facts) metrics))
    ∙ rw
        (
          asset_of-asset_text facts.asset_value,
          targeting_of-targeting_text facts.targeting,
          reads.0,
          reads.1.0,
          reads.1.1.0,
          reads.1.1.1.0,
          reads.1.1.1.1.0,
        )
        refl

rank-severity_of_value : (value : ℕ) → value ≤ 4 → severity_rank (severity_of_value value) ≡ value
rank-severity_of_value value h = ground arith

asset_severity-bounds :
    (value : AssetValue) → (2 ≤ asset_severity value) × (asset_severity value ≤ 4)
asset_severity-bounds standard_asset = omega arith
asset_severity-bounds sensitive_asset = omega arith
asset_severity-bounds critical_asset = omega arith

raised_if-bounds :
    (test : Bool) (value : ℕ)
    → value ≤ 4
    → (value ≤ raised_if test value) × (raised_if test value ≤ 4)
raised_if-bounds test value h = ground arith

-- "medium" is on the side that the test says.
abbrev pub IsFitting : (has_allowed : Bool) → Severity → Type 0
IsFitting has_allowed severity =
    (if has_allowed then leb 2 (severity_rank severity) else leb (severity_rank severity) 2) ≡ true

severity_of_value-IsFitting :
    (value : ℕ) → 2 ≤ value → value ≤ 4 → IsFitting true (severity_of_value value)
severity_of_value-IsFitting value h k = ground (arith, rank-severity_of_value value k)

severity_by_events-IsFitting :
    (facts : IncidentSeverityFacts)
    → IsFitting (ltb 0 facts.allowed_event_count) (severity_by_events facts)
unfolding severity_by_events
severity_by_events-IsFitting facts =
    let bounds = asset_severity-bounds facts.asset_value in
    let aimed = is_targeted facts.targeting && leb 2 facts.max_sensitive_ports_per_destination in
    let large = ltb 500 facts.total_event_count || ltb 50 facts.distinct_destination_count in
    let first = raised_if-bounds aimed (asset_severity facts.asset_value) bounds.1 in
    let aimed_value = raised_if aimed (asset_severity facts.asset_value) in
    let value = raised_if large aimed_value in
    let second = raised_if-bounds large aimed_value first.1 in
    if_ind (IsFitting (ltb 0 facts.allowed_event_count))
      (nat_beq facts.allowed_event_count 0 && contains facts.family recon_families)
      (λ unharmed. ground arith)
      (λ _.
        if_ind (IsFitting (ltb 0 facts.allowed_event_count)) (ltb 0 facts.allowed_event_count)
          (λ some_allowed.
            subst (λ b. IsFitting b (severity_of_value value)) (sym some_allowed)
              (severity_of_value-IsFitting value (omega (arith, bounds.0, first.0, second.0))
                second.1))
          (λ none_allowed. rw none_allowed refl))

length-filter-any :
    {A : Type 0} (p : A → Bool) (xs : List A) → ltb 0 (length (filter p xs)) ≡ any p xs
length-filter-any p [] = refl
length-filter-any p (x ∷ xs) = ground (arith, length-filter-any p xs)

-- For an incident with signals and of a family that is rated by its events, whatever Python's text
-- methods give: the severity that the facts of its events lead to is at least "medium" where one of
-- the events, the last one counting of those with the same id, is allowed, and at most "medium" where none is.
pub calculate_incident_severity-IsFitting :
    (text : TextMethods) (s : Signal) (signals : List Signal) (events : List Event)
    (family : String)
    → contains family event_aware_families ≡ true
    → IsFitting (any (is_allowed text) (unique_events events)) (
        calculate_incident_severity
          (s ∷ signals)
          (some (derive_incident_severity_facts text events family)))
unfolding calculate_incident_severity derive_incident_severity_facts
calculate_incident_severity-IsFitting text s signals events family aware =
    rw (aware, sym (length-filter-any (is_allowed text) (unique_events events)))
      (severity_by_events-IsFitting (derive_incident_severity_facts text events family))
