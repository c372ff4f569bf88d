-- ===== src/Security/Authorization.antt =====
-- agent/security/authorization.py. A frozenset is a list that is read by `contains`.
use agentic_soc_triage_assis.Prelude.{
  String, Bool, List, Option, [], none, some, ◌∷◌, ◌++◌, ◌==◌, if◌then◌else◌, any, text_equality,
}

pub data Role : Type 0 where
  viewer analyst service admin : Role

pub data Permission : Type 0 where
  job_submit job_read job_cancel incident_read incident_status_update : Permission
  incident_audit_read report_read worker_read audit_read : Permission

-- The values of the enumeration.
abbrev pub permission_name : Permission → String
permission_name job_submit = "job.submit"
permission_name job_read = "job.read"
permission_name job_cancel = "job.cancel"
permission_name incident_read = "incident.read"
permission_name incident_status_update = "incident.status.update"
permission_name incident_audit_read = "incident.audit.read"
permission_name report_read = "report.read"
permission_name worker_read = "worker.read"
permission_name audit_read = "audit.read"

-- Members of the enumeration are equal where their values are.
abbrev pub same_permission : Permission → Permission → Bool
same_permission p q = permission_name p == permission_name q

abbrev pub viewer_permissions : List Permission
viewer_permissions = job_read ∷ incident_read ∷ report_read ∷ []

-- `ROLE_PERMISSIONS[role]`.
unfoldable pub role_permissions : Role → List Permission
role_permissions viewer = viewer_permissions
role_permissions service = job_submit ∷ job_read ∷ incident_read ∷ report_read ∷ []
role_permissions analyst =
    job_submit ∷ job_read ∷ job_cancel ∷ incident_read ∷ incident_status_update
    ∷ incident_audit_read ∷ report_read ∷ []
role_permissions admin =
    job_submit ∷ job_read ∷ job_cancel ∷ incident_read ∷ incident_status_update
    ∷ incident_audit_read ∷ report_read ∷ worker_read ∷ audit_read ∷ []

-- `Role(role_name)`, `none` where it raises `ValueError`.
unfoldable pub role_of : String → Option Role
role_of name =
    if name == "viewer"
    then some viewer
    else if name == "analyst"
    then some analyst
    else if name == "service"
    then some service
    else if name == "admin"
    then some admin
    else none

-- What one name adds.
abbrev pub permissions_of_role : Option Role → List Permission
permissions_of_role none = []
permissions_of_role (some role) = role_permissions role

unfoldable pub permissions_for_roles : (roles : List String) → List Permission
permissions_for_roles [] = []
permissions_for_roles (role_name ∷ roles) =
    permissions_of_role (role_of role_name) ++ permissions_for_roles roles

unfoldable pub has_permission : (roles : List String) → Permission → Bool
has_permission roles permission = any (same_permission permission) (permissions_for_roles roles)
