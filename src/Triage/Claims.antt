-- ===== src/Triage/Claims.antt =====
-- `validate_claims` of agent/triage/claims.py. A claim type outside the enumeration cannot come up: the
-- type is `ClaimType`, so the first `continue` is left out.
use agentic_soc_triage_assis.Prelude.{
  [], none, some, true, false, inl, inr, refl, ◌≡◌, ◌∷◌, ◌&&◌, ◌||◌, if◌then◌else◌, String, Bool,
  List, Option, filter, map, is_subset, is_empty, arith, All, is_some, not, Option-cases,
  text_equality, ap,
}

pub data ClaimType : Type 0 where
  account_compromise credential_theft successful_exploitation data_exfiltration : ClaimType
  database_compromise malware_execution persistence lateral_movement : ClaimType
  brute_force_success successful_authentication command_execution other_claim : ClaimType

pub data RejectionReason : Type 0 where
  missing_supporting_evidence evidence_rejected unsupported_claim_type : RejectionReason
  firewall_only_evidence_insufficient : RejectionReason

pub record TriageClaim : Type 0 where
  pub claim_id : String
  pub claim_type : ClaimType
  pub supporting_evidence_ids : List String
  pub supporting_event_ids : List String

pub record EvidenceResult : Type 0 where
  pub evidence_id : String
  pub event_id : String
  pub is_validated : Bool

pub record RejectedClaim : Type 0 where
  pub claim_id : String
  pub reason : RejectionReason

-- `claim_type in HIGH_IMPACT_CLAIMS`: the set names every type but `OTHER`.
abbrev pub is_high_impact : ClaimType → Bool
is_high_impact other_claim = false
is_high_impact _ = true

abbrev pub is_other : ClaimType → Bool
is_other other_claim = true
is_other _ = false

unfoldable pub validated : List EvidenceResult → List EvidenceResult
validated results = filter (λ (r : EvidenceResult). r.is_validated) results

abbrev pub evidence_ids : List EvidenceResult → List String
evidence_ids results = map (λ (r : EvidenceResult). r.evidence_id) (validated results)

abbrev pub event_ids : List EvidenceResult → List String
event_ids results = map (λ (r : EvidenceResult). r.event_id) (validated results)

-- The body of the loop: `none` accepts the claim.
unfoldable pub judge_claim :
    TriageClaim → List EvidenceResult → (firewall_only_evidence : Bool) → Option RejectionReason
judge_claim claim results firewall_only_evidence =
    let all_support_valid =
      is_subset claim.supporting_evidence_ids (evidence_ids results)
      && is_subset claim.supporting_event_ids (event_ids results) in
    if is_empty claim.supporting_evidence_ids || is_empty claim.supporting_event_ids
    then some missing_supporting_evidence
    else if not all_support_valid
    then some evidence_rejected
    else if is_high_impact claim.claim_type
    then some unsupported_claim_type
    else if firewall_only_evidence && is_other claim.claim_type
    then some firewall_only_evidence_insufficient
    else none

abbrev pub sort_claim :
    TriageClaim
    → Option RejectionReason
    → List TriageClaim × List RejectedClaim
    → List TriageClaim × List RejectedClaim
sort_claim claim none rest = (claim ∷ rest.0, rest.1)
sort_claim claim (some why) rest =
    (rest.0, record { claim_id = claim.claim_id; reason = why } ∷ rest.1)

unfoldable pub validate_claims :
    List TriageClaim
    → List EvidenceResult
    → (firewall_only_evidence : Bool) → List TriageClaim × List RejectedClaim
validate_claims [] results firewall_only_evidence = ([], [])
validate_claims (claim ∷ claims) results firewall_only_evidence =
    sort_claim claim (judge_claim claim results firewall_only_evidence)
      (validate_claims claims results firewall_only_evidence)

-- What an accepted claim rests on.
pub record IsSupported (results : List EvidenceResult) (claim : TriageClaim) : Type 0 where
  pub has_evidence : is_empty claim.supporting_evidence_ids ≡ false
  pub has_events : is_empty claim.supporting_event_ids ≡ false
  pub evidence_validated : is_subset claim.supporting_evidence_ids (evidence_ids results) ≡ true
  pub events_validated : is_subset claim.supporting_event_ids (event_ids results) ≡ true
  pub low_impact : is_high_impact claim.claim_type ≡ false

judge_claim-IsSupported :
    (claim : TriageClaim) (results : List EvidenceResult) (firewall_only : Bool)
    → judge_claim claim results firewall_only ≡ none
    → IsSupported results claim
unfolding judge_claim
judge_claim-IsSupported claim results firewall_only h = ground arith

-- Every claim that is accepted names evidence and events, all of them validated, and asserts no
-- compromise.
pub validate_claims-IsSupported :
    (claims : List TriageClaim) (results : List EvidenceResult) (firewall_only : Bool)
    → All (IsSupported results) (validate_claims claims results firewall_only).0
unfolding validate_claims
validate_claims-IsSupported [] results firewall_only = tt
validate_claims-IsSupported (claim ∷ claims) results firewall_only =
    elim (Option-cases (judge_claim claim results firewall_only)) [
      | inl accepted ↦ rw accepted (
        judge_claim-IsSupported claim results firewall_only accepted,
        validate_claims-IsSupported claims results firewall_only,
      )
      | inr (why, rejected) ↦ rw rejected (validate_claims-IsSupported claims results firewall_only)
    ]

judge_claim-firewall :
    (claim : TriageClaim) (results : List EvidenceResult)
    → is_some (judge_claim claim results true) ≡ true
unfolding judge_claim
judge_claim-firewall claim results = ground arith

-- Where only firewall evidence exists, no claim at all is accepted, and each claim has its rejection.
pub validate_claims-firewall :
    (claims : List TriageClaim) (results : List EvidenceResult)
    → ((validate_claims claims results true).0 ≡ [])
      × (map (λ (r : RejectedClaim). r.claim_id) (validate_claims claims results true).1
          ≡ map (λ (c : TriageClaim). c.claim_id) claims)
unfolding validate_claims
validate_claims-firewall [] results = (refl, refl)
validate_claims-firewall (claim ∷ claims) results =
    let ih = validate_claims-firewall claims results in
    elim (Option-cases (judge_claim claim results true)) [
      | inl accepted ↦ cc (judge_claim-firewall claim results)
      | inr (why, rejected) ↦ rw rejected (ih.0, ap (λ ids. claim.claim_id ∷ ids) ih.1)
    ]
