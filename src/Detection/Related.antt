-- ===== src/Detection/Related.antt =====
-- agent/detection/context_matching.py: when two events belong to one exchange. A frozenset is a list
-- that is read by `contains`.
use agentic_soc_triage_assis.Prelude.{
  ℕ, Option, List, [], none, some, true, false, ◌∷◌, ◌++◌, ◌&&◌, ◌||◌, ◌==◌, if◌then◌else◌, String,
  Bool, filter, ltb, intersects, is_empty, not, any, text_equality, is_some, number_equality,
}
use agentic_soc_triage_assis.Detection.Model.{Event, TextMethods}
use agentic_soc_triage_assis.Detection.EventFacts.{classify_service}

-- The ports from the IANA well-known range.
abbrev pub first_registered_port : ℕ
first_registered_port = 1024

-- `ip for ip in (...) if ip`.
abbrev pub present_text : Option String → List String
present_text none = []
present_text (some ip) = if ip == "" then [] else ip ∷ []

abbrev pub present_port : Option ℕ → List ℕ
present_port none = []
present_port (some port) = port ∷ []

-- The two parts of `_endpoint_ip_sets`.
abbrev pub src_ips : Event → List String
src_ips e = present_text e.src_ip ++ present_text e.translated_src_ip

abbrev pub dst_ips : Event → List String
dst_ips e = present_text e.dst_ip ++ present_text e.translated_dst_ip

-- The two parts of `_endpoint_port_sets`.
abbrev pub src_ports : Event → List ℕ
src_ports e = present_port e.src_port ++ present_port e.translated_src_port

abbrev pub dst_ports : Event → List ℕ
dst_ports e = present_port e.dst_port ++ present_port e.translated_dst_port

abbrev pub all_ports : Event → List ℕ
all_ports e = src_ports e ++ dst_ports e

unfoldable pub is_likely_service_port : ℕ → Bool
is_likely_service_port port = ltb port first_registered_port || is_some (classify_service port)

abbrev pub with_service : Option String → List String → List String
with_service none services = services
with_service (some service) services = service ∷ services

unfoldable pub services_of : List ℕ → List String
services_of [] = []
services_of (port ∷ ports) = with_service (classify_service port) (services_of ports)

unfoldable pub forward_ip : Event → Event → Bool
forward_ip a b = intersects (src_ips a) (src_ips b) && intersects (dst_ips a) (dst_ips b)

unfoldable pub reverse_ip : Event → Event → Bool
reverse_ip a b = intersects (src_ips a) (dst_ips b) && intersects (dst_ips a) (src_ips b)

unfoldable pub forward_ports : Event → Event → Bool
forward_ports a b = intersects (src_ports a) (src_ports b) && intersects (dst_ports a) (dst_ports b)

unfoldable pub reverse_ports : Event → Event → Bool
reverse_ports a b = intersects (src_ports a) (dst_ports b) && intersects (dst_ports a) (src_ports b)

-- `ref_service_dst_ports & cand_src_ports` or `ref_service_src_ports & cand_dst_ports`.
unfoldable pub one_sided_service_match : Event → Event → Bool
one_sided_service_match a b =
    intersects (filter is_likely_service_port (dst_ports a)) (src_ports b)
    || intersects (filter is_likely_service_port (src_ports a)) (dst_ports b)

unfoldable pub compatible_service : Event → Event → Bool
compatible_service a b = intersects (services_of (all_ports a)) (services_of (all_ports b))

unfoldable pub both_without_ports : Event → Event → Bool
both_without_ports a b = is_empty (all_ports a) && is_empty (all_ports b)

module _ (text : TextMethods) where
  -- `None` and the empty text both count as unknown.
  abbrev pub protocol_text : Option String → String
  protocol_text none = ""
  protocol_text (some p) = if p == "" then "" else text.upper p

  unfoldable pub protocols_compatible : Event → Event → Bool
  protocols_compatible a b =
      let p = protocol_text a.protocol in
      let q = protocol_text b.protocol in if not (p == "") && not (q == "") then p == q else true

  unfoldable pub events_are_bidirectionally_related : (reference candidate : Event) → Bool
  events_are_bidirectionally_related a b =
      if not (protocols_compatible a b)
      then false
      else if not (forward_ip a b || reverse_ip a b)
      then false
      else if both_without_ports a b
      then true
      else (forward_ports a b
          || (reverse_ports a b
              || (compatible_service a b || (reverse_ip a b && one_sided_service_match a b))))

  unfoldable pub find_related_context_events : (reference context : List Event) → List Event
  find_related_context_events reference_events context_events =
      filter
        (λ candidate.
          any (λ reference. events_are_bidirectionally_related reference candidate)
            reference_events)
        context_events
