-- ===== src/Detection/Precedence.antt =====
-- The order of signals in agent/detection/incident_correlation.py: levels of signal types first, then
-- severity, confidence, time and names.
use Prim.Native.Nat.{compare, Ordering}
use agentic_soc_triage_assis.Prelude.{
  List, String, ℕ, [], none, some, ◌∷◌, ◌+◌, ◌==◌, if◌then◌else◌, Option, then_by, Bool, reversed,
  not_after, compare_text, text_equality,
}
use agentic_soc_triage_assis.Detection.Model.{Signal, severity_rank}

abbrev pub sequence_to_allowed : List String
sequence_to_allowed =
    "scan_followed_by_allowed_connection" ∷ "blocked_then_allowed_same_service"
    ∷ "spi_followed_by_allowed_connection" ∷ []

abbrev pub exposure_and_policy : List String
exposure_and_policy =
    "critical_management_service_exposed" ∷ "dnat_sensitive_service_exposure"
    ∷ "wan_to_lan_sensitive_service_allowed" ∷ "multi_source_allowed_sensitive_service"
    ∷ "wan_to_dmz_administrative_service_allowed" ∷ "inbound_sensitive_service_allowed" ∷ []

abbrev pub service_specific_probes : List String
service_specific_probes =
    "rdp_probe" ∷ "ssh_probe" ∷ "smb_probe" ∷ "vnc_probe" ∷ "winrm_probe" ∷ "mssql_probe"
    ∷ "oracle_probe" ∷ "mysql_probe" ∷ "postgresql_probe" ∷ "redis_probe" ∷ "elasticsearch_probe"
    ∷ "mongodb_probe" ∷ "docker_daemon_probe" ∷ "kubernetes_api_probe" ∷ "kubelet_probe"
    ∷ "telnet_probe" ∷ "ftp_probe" ∷ "web_admin_panel_probe" ∷ "database_service_probe"
    ∷ "kubernetes_service_probe" ∷ "legacy_cleartext_service_probe" ∷ []

abbrev pub advanced_scanning : List String
advanced_scanning =
    "low_and_slow_horizontal_scan" ∷ "low_and_slow_vertical_scan" ∷ "internal_lateral_scan"
    ∷ "subnet_sweep" ∷ "distributed_scan" ∷ "multi_service_sweep" ∷ []

abbrev pub precedence_levels : List (List String)
precedence_levels =
    sequence_to_allowed
    ∷ exposure_and_policy
    ∷ service_specific_probes
    ∷ advanced_scanning
    ∷ ("horizontal_scan" ∷ "vertical_scan" ∷ [])
    ∷ ("repeated_blocked_scanner" ∷ [])
    ∷ []

-- The place of a type in its level, counted from `place`.
unfoldable pub place_in : (signal_type : String) (place : ℕ) → List String → Option ℕ
place_in signal_type place [] = none
place_in signal_type place (t ∷ types) =
    if t == signal_type then some place else place_in signal_type (place + 1) types

abbrev pub at_level : (level : ℕ) → Option ℕ → ℕ × ℕ → ℕ × ℕ
at_level level none lower = lower
at_level level (some place) lower = (level, place)

-- Level and place; a type of no level comes after all of them.
unfoldable pub level_from : (signal_type : String) (level : ℕ) → List (List String) → ℕ × ℕ
level_from signal_type level [] = (level, 0)
level_from signal_type level (types ∷ levels) =
    at_level level (place_in signal_type 0 types) (level_from signal_type (level + 1) levels)

unfoldable pub precedence_level : (signal_type : String) → ℕ × ℕ
precedence_level signal_type = level_from signal_type 1 precedence_levels

-- The comparison of two keys, field by field.
unfoldable pub compare_precedence : Signal → Signal → Ordering
compare_precedence a b =
    then_by (compare (precedence_level a.signal_type).0 (precedence_level b.signal_type).0) (
      then_by (compare (precedence_level a.signal_type).1 (precedence_level b.signal_type).1) (
        then_by (reversed (compare (severity_rank a.severity) (severity_rank b.severity))) (
          then_by (reversed (compare a.confidence b.confidence)) (
            then_by (compare a.first_seen b.first_seen) (
              then_by (compare_text a.rule_id b.rule_id) (
                then_by (compare_text a.signal_type b.signal_type)
                  (compare_text a.signal_id b.signal_id)))))))

unfoldable pub takes_precedence : Signal → Signal → Bool
takes_precedence a b = not_after (compare_precedence a b)
