-- ===== src/Detection/Model.antt =====
-- agent/schema.py and agent/detection/models.py: the fields that detection and routing read.
-- A timestamp is a number of microseconds with a flag for its time zone. A confidence is a number of
-- millionths. Python's string methods are the parameter `TextMethods`.
use agentic_soc_triage_assis.Prelude.{String, ℕ, Bool, Option, List}

-- `s.lower()`, `s.casefold()`, `s.upper()`, `s.strip()`, `sub in text`, `[t for t in re.split(r"[\s,|]+", s) if t]` and
-- the characters of `s`.
pub record TextMethods : Type 0 where
  pub lower : String → String
  pub casefold : String → String
  pub upper : String → String
  pub strip : String → String
  pub includes : (sub text : String) → Bool
  pub words : String → List String
  pub characters : String → List String

pub record Timestamp : Type 0 where
  pub micros : ℕ
  pub has_zone : Bool

pub record Event : Type 0 where
  pub event_id : String
  pub timestamp : Option Timestamp
  pub src_ip : Option String
  pub dst_ip : Option String
  pub src_port : Option ℕ
  pub dst_port : Option ℕ
  pub protocol : Option String
  pub action : Option String
  pub action_reason : Option String
  pub event_type : Option String
  pub event_outcome : Option String
  pub tcp_flags : Option String
  pub translated_src_ip : Option String
  pub translated_dst_ip : Option String
  pub translated_src_port : Option ℕ
  pub translated_dst_port : Option ℕ
  pub parse_status : String
  pub raw_record_hash : Option String
  pub safe_message_excerpt : String
  -- `parser_metadata`: is `spi_anomaly` the value `True`, and the text of `original_device_action`.
  pub spi_anomaly : Bool
  pub original_device_action : String

pub data Severity : Type 0 where
  informational low medium high critical : Severity

-- `_SEVERITY_RANK`.
abbrev pub severity_rank : Severity → ℕ
severity_rank informational = 0
severity_rank low = 1
severity_rank medium = 2
severity_rank high = 3
severity_rank critical = 4

pub record Evidence : Type 0 where
  pub event_id : String
  pub quote : String
  pub reason : String
  pub source : String

pub record Signal : Type 0 where
  pub signal_id : String
  pub rule_id : String
  pub rule_version : String
  pub rule_name : String
  pub signal_type : String
  pub signal_family : String
  pub severity : Severity
  pub confidence : ℕ
  pub first_seen : ℕ
  pub last_seen : ℕ
  pub event_ids : List String
  pub primary_entity : String
  pub target_entities : List String
  pub evidence : List Evidence
  pub mitre_techniques : List String
  pub tags : List String
  pub suppressed : Bool
  pub suppression_reason : Option String
