-- ===== src/Detection/EventFacts.antt =====
-- agent/detection/detectors/scan_helpers.py: what one event says on its own.
use agentic_soc_triage_assis.Prelude.{
  List, ℕ, [], none, some, true, false, ◌≡◌, ◌∷◌, ◌&&◌, ◌||◌, ◌==◌, if◌then◌else◌, String, Option,
  contains, Bool, not, number_equality, text_equality, and_split, refl, contains-disjoint,
}
use agentic_soc_triage_assis.Detection.Model.{TextMethods, Event}
use agentic_soc_triage_assis.Detection.TcpFlags.{parse_tcp_flag_tokens}

abbrev pub blocked_actions : List String
blocked_actions =
    "block" ∷ "blocked" ∷ "deny" ∷ "denied" ∷ "drop" ∷ "dropped" ∷ "reject" ∷ "rejected" ∷ []

abbrev pub allowed_actions : List String
allowed_actions = "allow" ∷ "allowed" ∷ "accept" ∷ "accepted" ∷ "pass" ∷ "passed" ∷ []

abbrev pub service_ports : List (String × List ℕ)
service_ports =
    ("database", 1433 ∷ 1521 ∷ 3306 ∷ 5432 ∷ [])
    ∷ ("docker", 2375 ∷ 2376 ∷ [])
    ∷ ("elasticsearch", 9200 ∷ [])
    ∷ ("ftp", 21 ∷ [])
    ∷ ("ftp_data", 20 ∷ [])
    ∷ ("ipmi", 623 ∷ [])
    ∷ ("kubernetes", 6443 ∷ 10250 ∷ [])
    ∷ ("ldap", 389 ∷ [])
    ∷ ("memcached", 11211 ∷ [])
    ∷ ("mongodb", 27017 ∷ [])
    ∷ ("msrpc", 135 ∷ [])
    ∷ ("rdp", 3389 ∷ [])
    ∷ ("redis", 6379 ∷ [])
    ∷ ("smb", 139 ∷ 445 ∷ [])
    ∷ ("snmp", 161 ∷ [])
    ∷ ("ssh", 22 ∷ 2022 ∷ 2222 ∷ [])
    ∷ ("telnet", 23 ∷ [])
    ∷ ("vnc", 5900 ∷ 5901 ∷ 5902 ∷ 5903 ∷ 5904 ∷ 5905 ∷ [])
    ∷ ("winrm", 5985 ∷ 5986 ∷ [])
    ∷ []

-- `PORT_TO_SERVICE.get(port)`; no port stands twice in the table.
unfoldable pub service_of : List (String × List ℕ) → ℕ → Option String
service_of [] port = none
service_of (entry ∷ entries) port =
    if contains port entry.1 then some entry.0 else service_of entries port

unfoldable pub classify_service : ℕ → Option String
classify_service port = service_of service_ports port

module _ (text : TextMethods) where
  -- `bool(action and action.strip().lower() in actions)`.
  abbrev pub is_action_of : List String → Option String → Bool
  is_action_of actions none = false
  is_action_of actions (some action) =
      not (action == "") && contains (text.lower (text.strip action)) actions

  unfoldable pub is_blocked : Event → Bool
  is_blocked event = is_action_of blocked_actions event.action

  unfoldable pub is_allowed : Event → Bool
  is_allowed event = is_action_of allowed_actions event.action

  unfoldable pub event_tcp_flag_tokens : Event → List String
  event_tcp_flag_tokens event = parse_tcp_flag_tokens text event.tcp_flags

  -- `field and marker in field.lower()`.
  abbrev pub mentions : String → Option String → Bool
  mentions marker none = false
  mentions marker (some field) = not (field == "") && text.includes marker (text.lower field)

  unfoldable pub is_spi_anomaly_event : Event → (fallback_raw_match : Bool) → Bool
  is_spi_anomaly_event event fallback_raw_match =
      mentions "spi" event.action_reason
      || (mentions "spi" event.event_outcome
          || (mentions "spi" event.action
              || (event.spi_anomaly
                  || (fallback_raw_match
                      && mentions "blocked by spi" (some event.safe_message_excerpt)))))

  action_of-disjoint :
      (action : Option String)
      → is_action_of blocked_actions action ≡ true
      → is_action_of allowed_actions action ≡ false
  action_of-disjoint none h = refl
  action_of-disjoint (some action) h =
      let parts =
        and_split (not (action == "")) (contains (text.lower (text.strip action)) blocked_actions)
          h in
      rw
        (
          parts.0,
          contains-disjoint (text.lower (text.strip action)) blocked_actions allowed_actions refl
              parts.1,
        )
        refl

  -- No action is in both tables.
  pub is_blocked-is_allowed : (event : Event) → is_blocked event ≡ true → is_allowed event ≡ false
  unfolding is_blocked is_allowed
  is_blocked-is_allowed event h = action_of-disjoint event.action h
