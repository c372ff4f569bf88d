-- ===== src/Detection/Scoring.antt =====
-- agent/detection/scoring.py: the facts of an incident's events, and the severity and confidence of an
-- incident. A count is a number; Python's `str` and `int` on numbers are the parameter `Numerals`, and
-- a negative text is not read. A confidence is an exact fraction of millionths.
use agentic_soc_triage_assis.Prelude.{
  ◌>>=◌, ℕ, String, Dict, Option, [], none, some, ◌∷◌, ◌==◌, if◌then◌else◌, put_entry,
  text_equality, get_entry,
}

-- `int(s)` is `none` where it raises `ValueError`.
pub record Numerals : Type 0 where
  pub decimal : ℕ → String
  pub parse_decimal : String → Option ℕ

-- A value of a metrics dictionary.
pub data Metric : Type 0 where
  count_metric : ℕ → Metric
  text_metric : String → Metric

pub data AssetValue : Type 0 where
  standard_asset sensitive_asset critical_asset : AssetValue

pub data Targeting : Type 0 where
  targeted broad : Targeting

-- The strings that the source writes for these.
abbrev pub asset_text : AssetValue → String
asset_text standard_asset = "standard"
asset_text sensitive_asset = "sensitive"
asset_text critical_asset = "critical"

abbrev pub targeting_text : Targeting → String
targeting_text targeted = "targeted"
targeting_text broad = "broad"

-- `asset_value in _ASSET_RANK`, with the value that it is.
unfoldable pub asset_of : String → Option AssetValue
asset_of s =
    if s == "standard"
    then some standard_asset
    else if s == "sensitive"
    then some sensitive_asset
    else if s == "critical"
    then some critical_asset
    else none

unfoldable pub targeting_of : String → Option Targeting
targeting_of s =
    if s == "targeted" then some targeted else if s == "broad" then some broad else none

pub record IncidentSeverityFacts : Type 0 where
  pub family : String
  pub total_event_count : ℕ
  pub allowed_event_count : ℕ
  pub blocked_event_count : ℕ
  pub distinct_destination_count : ℕ
  pub asset_value : AssetValue
  pub targeting : Targeting
  pub max_sensitive_ports_per_destination : ℕ

abbrev pub as_metrics : IncidentSeverityFacts → Dict String Metric
as_metrics facts =
    ("severity_family", text_metric facts.family)
    ∷ ("severity_total_event_count", count_metric facts.total_event_count)
    ∷ ("allowed_event_count", count_metric facts.allowed_event_count)
    ∷ ("blocked_event_count", count_metric facts.blocked_event_count)
    ∷ ("distinct_destination_count", count_metric facts.distinct_destination_count)
    ∷ ("asset_value", text_metric (asset_text facts.asset_value))
    ∷ ("targeting", text_metric (targeting_text facts.targeting))
    ∷ (
      "max_sensitive_ports_per_destination",
      count_metric facts.max_sensitive_ports_per_destination,
    )
    ∷ []

-- `d.update(other)`.
unfoldable pub update_metrics : Dict String Metric → Dict String Metric → Dict String Metric
update_metrics metrics [] = metrics
update_metrics metrics (entry ∷ entries) =
    update_metrics (put_entry entry.0 entry.1 metrics) entries

pub data FactsResult : Type 0 where
  -- The answer `None`.
  no_facts : FactsResult
  -- `int` raises `ValueError`.
  bad_number : FactsResult
  found_facts : IncidentSeverityFacts → FactsResult

-- `None` inside is a `ValueError`, outside the answer `None`.
abbrev pub answer_facts : Option (Option IncidentSeverityFacts) → FactsResult
answer_facts none = no_facts
answer_facts (some none) = bad_number
answer_facts (some (some facts)) = found_facts facts

module _ (numerals : Numerals) where
  -- `str(value)`.
  abbrev pub metric_text : Metric → String
  metric_text (count_metric n) = numerals.decimal n
  metric_text (text_metric s) = s

  unfoldable pub metric_int : Metric → Option ℕ
  metric_int value = numerals.parse_decimal (metric_text value)

  -- The construction of the facts, once all keys are there and both names are known.
  unfoldable pub build_facts :
      (family total allowed blocked destinations ports : Metric)
      → AssetValue
      → Targeting
      → Option IncidentSeverityFacts
  unfolding metric_int
  build_facts family total allowed blocked destinations ports asset targeting = do
    total_event_count ← metric_int total
    allowed_event_count ← metric_int allowed
    blocked_event_count ← metric_int blocked
    distinct_destination_count ← metric_int destinations
    max_sensitive_ports_per_destination ← metric_int ports
    some (record {
      family = metric_text family;
      total_event_count = total_event_count;
      allowed_event_count = allowed_event_count;
      blocked_event_count = blocked_event_count;
      distinct_destination_count = distinct_destination_count;
      asset_value = asset;
      targeting = targeting;
      max_sensitive_ports_per_destination = max_sensitive_ports_per_destination;
    })

  -- The body of `from_metrics`, from the value that each key has.
  unfoldable pub facts_by : (get : String → Option Metric) → FactsResult
  unfolding build_facts
  facts_by get = answer_facts (do
    family ← get "severity_family"
    total ← get "severity_total_event_count"
    allowed ← get "allowed_event_count"
    blocked ← get "blocked_event_count"
    destinations ← get "distinct_destination_count"
    asset ← get "asset_value"
    targeting ← get "targeting"
    ports ← get "max_sensitive_ports_per_destination"
    asset_value ← asset_of (metric_text asset)
    targeting_value ← targeting_of (metric_text targeting)
    some (build_facts family total allowed blocked destinations ports asset_value targeting_value))

  unfoldable pub from_metrics : Dict String Metric → FactsResult
  unfolding facts_by
  from_metrics metrics = facts_by (λ key. get_entry key metrics)
