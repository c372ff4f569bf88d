-- ===== src/Jobs/Model.antt =====
-- The rows of `ingestion_jobs` and `audit_events` (agent/persistence/orm_models.py), the files of the
-- staging directory, and the settings of the job queue (agent/config.py).
-- A time is a number of microseconds. A status is a string in the database: the names that the queue
-- knows are constructors, any other is `other`.
use agentic_soc_triage_assis.Prelude.{ℕ, String, Bool, true, false, Option, List}

pub data JobStatus : Type 0 where
  queued processing cancel_requested cancelled completed failed : JobStatus
  other : String → JobStatus

-- The columns that the queue reads or writes.
pub record Job : Type 0 where
  pub id : String
  pub idempotency_key : Option String
  pub source_name : String
  pub original_filename : Option String
  pub file_sha256 : Option String
  pub pipeline_version : Option String
  pub analysis_mode : Option String
  pub status : JobStatus
  pub error_code : Option String
  pub reused_count : ℕ
  pub last_requested_at : Option ℕ
  pub queued_at : Option ℕ
  pub started_at : Option ℕ
  pub completed_at : Option ℕ
  pub attempt_count : ℕ
  pub worker_id : Option String
  pub next_retry_at : Option ℕ
  pub lease_expires_at : Option ℕ
  pub last_attempt_at : Option ℕ
  pub cancel_requested_at : Option ℕ
  pub cancelled_at : Option ℕ
  pub cancel_reason_code : Option String
  pub cancel_requested_by : Option String

pub record AuditEvent : Type 0 where
  pub timestamp : ℕ
  pub event_type : String
  pub entity_type : String
  pub entity_id : String
  pub actor_type : String
  pub actor_id : String
  pub request_id : Option String
  pub cancel_reason_code : String

-- The committed database, and the names of the staged files.
pub record Store : Type 0 where
  pub jobs : List Job
  pub audit_events : List AuditEvent
  pub staged : List String

pub record Settings : Type 0 where
  pub job_max_attempts : ℕ
  pub job_retry_base_seconds : ℕ
  pub job_retry_max_seconds : ℕ
  pub job_processing_lease_seconds : ℕ

abbrev pub is_queued : JobStatus → Bool
is_queued queued = true
is_queued _ = false

abbrev pub is_processing : JobStatus → Bool
is_processing processing = true
is_processing _ = false

abbrev pub is_cancel_requested : JobStatus → Bool
is_cancel_requested cancel_requested = true
is_cancel_requested _ = false

abbrev pub is_cancelled : JobStatus → Bool
is_cancelled cancelled = true
is_cancelled _ = false

-- `status in ("queued", "processing", "completed")`.
abbrev pub is_reusable : JobStatus → Bool
is_reusable queued = true
is_reusable processing = true
is_reusable completed = true
is_reusable _ = false
