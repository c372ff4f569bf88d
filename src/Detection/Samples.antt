-- ===== src/Detection/Samples.antt =====
-- A plain world for the examples: text methods that change nothing, and events of one flow.
use agentic_soc_triage_assis.Detection.Model.{TextMethods, Event, Signal, low}
use agentic_soc_triage_assis.Prelude.{
  String, [], none, some, true, false, ◌∷◌, ◌==◌, ℕ, text_equality, List,
}

abbrev pub plain_text : TextMethods
plain_text = record {
  lower = λ s. s;
  casefold = λ s. s;
  upper = λ s. s;
  strip = λ s. s;
  includes = λ sub text. sub == text;
  words = λ s. s ∷ [];
  characters = λ s. s ∷ [];
}

abbrev pub sample_event : (id : String) (micros : ℕ) → Event
sample_event id micros = record {
  event_id = id;
  timestamp = some (record { micros = micros; has_zone = true });
  src_ip = some "203.0.113.7";
  dst_ip = some "10.0.0.5";
  src_port = some 51_000;
  dst_port = some 443;
  protocol = some "TCP";
  action = some "blocked";
  action_reason = none;
  event_type = some "firewall";
  event_outcome = none;
  tcp_flags = some "SYN";
  translated_src_ip = none;
  translated_dst_ip = none;
  translated_src_port = none;
  translated_dst_port = none;
  parse_status = "parsed";
  raw_record_hash = some "hash";
  safe_message_excerpt = "";
  spi_anomaly = false;
  original_device_action = "";
}

-- The answer of the same flow, from another client port.
abbrev pub reply_event : Event
reply_event = record (sample_event "e2" 20) {
  src_ip = some "10.0.0.5";
  dst_ip = some "203.0.113.7";
  src_port = some 443;
  dst_port = some 51_001;
}

abbrev pub signal_on : List String → Signal
signal_on ids = record {
  signal_id = "s1";
  rule_id = "scan";
  rule_version = "1";
  rule_name = "Scan";
  signal_type = "scan";
  signal_family = "network_scanning";
  severity = low;
  confidence = 500_000;
  first_seen = 10;
  last_seen = 30;
  event_ids = ids;
  primary_entity = "203.0.113.7";
  target_entities = [];
  evidence = [];
  mitre_techniques = [];
  tags = [];
  suppressed = false;
  suppression_reason = none;
}
