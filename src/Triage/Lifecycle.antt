-- ===== src/Triage/Lifecycle.antt =====
-- `IncidentLifecycle.transition` of agent/persistence/lifecycle.py. A status is a text, as in the
-- column. The audit row keeps the two statuses; its id, its actor and its time are left out.
use agentic_soc_triage_assis.Prelude.{
  [], none, some, true, suc, zero, ◌≡◌, ◌∷◌, ◌++◌, ◌+◌, ◌==◌, if◌then◌else◌, String, List, Option,
  ℕ, contains, if_ind, text_equality,
}

pub record AuditEntry : Type 0 where
  pub old_status : String
  pub new_status : String

pub record StoredIncident : Type 0 where
  pub status : String
  -- `version` may be null or 0 in the row: `incident.version or 1`.
  pub version : Option ℕ
  pub audit_events : List AuditEntry

pub data Transition : Type 0 where
  unchanged : Transition
  moved : StoredIncident → Transition
  refused_transition : (old_status new_status : String) → Transition

abbrev pub valid_transitions : List (String × List String)
valid_transitions =
    ("new", "triaged" ∷ "closed" ∷ "needs_review" ∷ [])
    ∷ (
      "triaged",
      "investigating" ∷ "assigned" ∷ "needs_review" ∷ "resolved" ∷ "false_positive" ∷ [],
    )
    ∷ ("needs_review", "assigned" ∷ "investigating" ∷ "triaged" ∷ [])
    ∷ ("assigned", "investigating" ∷ [])
    ∷ ("investigating", "confirmed" ∷ "resolved" ∷ "false_positive" ∷ [])
    ∷ ("confirmed", "resolved" ∷ [])
    ∷ ("resolved", "closed" ∷ "reopened" ∷ [])
    ∷ ("false_positive", "closed" ∷ "reopened" ∷ [])
    ∷ ("closed", "reopened" ∷ [])
    ∷ ("reopened", "investigating" ∷ "assigned" ∷ "needs_review" ∷ [])
    ∷ []

-- `VALID_TRANSITIONS.get(old_status, [])`.
abbrev pub allowed_from : List (String × List String) → String → List String
allowed_from [] status = []
allowed_from (entry ∷ entries) status =
    if entry.0 == status then entry.1 else allowed_from entries status

abbrev pub version_or_one : Option ℕ → ℕ
version_or_one none = 1
version_or_one (some zero) = 1
version_or_one (some (suc n)) = suc n

unfoldable pub transition : StoredIncident → (new_status : String) → Transition
transition incident new_status =
    if incident.status == new_status
    then unchanged
    else if contains new_status (allowed_from valid_transitions incident.status)
    then moved (record incident {
      status = new_status;
      version = some (version_or_one incident.version + 1);
      audit_events =
          incident.audit_events
          ++ (record { old_status = incident.status; new_status = new_status } ∷ []);
    })
    else refused_transition incident.status new_status

-- The row after a request: the refusal and the no-op leave it as it was.
abbrev pub settle : StoredIncident → Transition → StoredIncident
settle incident unchanged = incident
settle incident (moved after) = after
settle incident (refused_transition old new) = incident

unfoldable pub transitions : StoredIncident → List String → StoredIncident
transitions incident [] = incident
transitions incident (status ∷ statuses) =
    transitions (settle incident (transition incident status)) statuses

-- The audit entries tell one walk through the table that ends in the status.
pub data IsTrail (start : String) : List AuditEntry → String → Type 0 where
  begun : IsTrail start [] start
  extended :
      {audits : List AuditEntry} {old new : String}
      → IsTrail start audits old
      → contains new (allowed_from valid_transitions old) ≡ true
      → IsTrail start (audits ++ (record { old_status = old; new_status = new } ∷ [])) new

transition-IsTrail :
    (start : String) (incident : StoredIncident) (status : String)
    → IsTrail start incident.audit_events incident.status
    → let after = settle incident (transition incident status) in
      IsTrail start after.audit_events after.status
unfolding transition
transition-IsTrail start incident status h =
    if_ind (λ t. IsTrail start (settle incident t).audit_events (settle incident t).status)
      (incident.status == status) (λ _. h)
      (λ _.
        if_ind (λ t. IsTrail start (settle incident t).audit_events (settle incident t).status)
          (contains status (allowed_from valid_transitions incident.status))
          (λ allowed. extended h allowed) (λ _. h))

-- Where the audit entries of the incident form a walk along the table of valid transitions from some
-- status to the incident's status, they still do after any requests for statuses, accepted or
-- refused.
pub transitions-IsTrail :
    (start : String) (incident : StoredIncident) (statuses : List String)
    → IsTrail start incident.audit_events incident.status
    → let after = transitions incident statuses in IsTrail start after.audit_events after.status
unfolding transitions
transitions-IsTrail start incident [] h = h
transitions-IsTrail start incident (status ∷ statuses) h =
    transitions-IsTrail start (settle incident (transition incident status)) statuses
      (transition-IsTrail start incident status h)
